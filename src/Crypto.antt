-- ===== src/Crypto.antt =====
-- pkg/crypto/crypto.go: hashes of files and of readers, and the check of a certificate.
use torrxfer.Base.{Bool, true, false, Option, none, some, if◌then◌else◌, ◌>>=◌}
use torrxfer.Text.{Bytes}
use torrxfer.Platform.{Platform}
use torrxfer.Disk.{Disk, read_file}

module _ (w : Platform) where
  open w use {Time, sha256}

  -- `none` is an error: of the opening or of the reading of the file.
  unfoldable pub hash_file : Disk Time → Bytes → Option Bytes
  hash_file disk path = do content ← read_file disk path; some (sha256 content)

  -- A reader as what it gives before its end; `none` if it fails.
  unfoldable pub hash_reader : Option Bytes → Option Bytes
  hash_reader reader = do content ← reader; some (sha256 content)

-- `encoding/pem` and `crypto/x509`: a block's bytes and the rest of a file, the certificate in a
-- block, and whether a certificate is valid for a host with the roots of a text.
pub record Certificates : Type 1 where
  pub Certificate : Type 0
  pub decode : Bytes → Option (Bytes × Bytes)
  pub parse : Bytes → Option Certificate
  pub verifies : Certificate → Bytes → Bytes → Bool

-- Whether the certificate is valid, the certificate, and whether there was an error.
pub record Verdict (C : Type 0) : Type 0 where
  pub valid : Bool
  pub certificate : Option C
  pub failed : Bool

module _ (x : Certificates) where
  open x use {Certificate, decode, parse, verifies}

  abbrev check_certificate : Bytes → Bytes → Option Certificate → Verdict Certificate
  check_certificate roots hostname none = record {
    valid = false;
    certificate = none;
    failed = true;
  }
  check_certificate roots hostname (some c) =
      if verifies c hostname roots
      then record { valid = true; certificate = some c; failed = false }
      else record { valid = false; certificate = some c; failed = true }

  -- A text without a block is not valid, and the error that is returned is that of the reading,
  -- which is nil by then.
  abbrev check_block : Bytes → Option (Bytes × Bytes) → Verdict Certificate
  check_block hostname none = record { valid = false; certificate = none; failed = false }
  check_block hostname (some (block, rest)) = check_certificate rest hostname (parse block)

  abbrev check_content : Bytes → Option Bytes → Verdict Certificate
  check_content hostname none = record { valid = false; certificate = none; failed = true }
  check_content hostname (some content) = check_block hostname (decode content)

  unfoldable pub verify_cert : {T : Type 0} → Disk T → Bytes → Bytes → Verdict Certificate
  verify_cert disk path hostname = check_content hostname (read_file disk path)
