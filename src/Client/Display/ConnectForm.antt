-- ===== src/Client/Display/ConnectForm.antt =====
-- internal/client/ui.go: `connectServer`, what its form does when a field is left and when the
-- button Connect is pressed. The colours of the fields are flags.
pub mod Pressed
use torrxfer.Base.{
  ℕ, ◌+◌, ◌-◌, ◌*◌, ◌^◌, Bool, true, false, ◌||◌, not, List, [], ◌∷◌, ◌++◌, Option, none, some, ltb,
  if◌then◌else◌, lookup, insert,
}
use torrxfer.Text.{Bytes, codes}
use torrxfer.Decimal.{format_uint}
use torrxfer.FilePath.{join}
use torrxfer.Disk.{
  Disk, Stat, found, not_exist, stat_failed, write_call, regular, os_stat, open_file,
}
use torrxfer.Net.File.{Outcome, done, exits}
use torrxfer.Net.Dial.{ServerConnectionConfig}
use torrxfer.Crypto.{Certificates, Verdict, verify_cert}

-- The texts of the fields, the check box, the certificate, and whether a field is marked.
pub record ConnectForm (C : Type 0) : Type 0 where
  pub address : Bytes
  pub port : Bytes
  pub cert_file : Bytes
  pub use_tls : Bool
  pub cert_data : Option C
  pub address_marked : Bool
  pub cert_marked : Bool

abbrev pub max_u32 : ℕ
max_u32 = 2 ^ 32 - 1

-- `port, _ := strconv.ParseUint(text, 10, 32)`: 0 for a text that is not a number, and the greatest
-- uint32 for one that is too great.
unfoldable pub scan_port : Bytes → ℕ → ℕ
scan_port [] n = n
scan_port (c ∷ s) n =
    let next = n * 10 + (c - b'0') in
    let rest = scan_port s next in
    if ltb c b'0' || ltb b'9' c then 0 else if ltb max_u32 next then max_u32 else rest

unfoldable pub parse_port : Bytes → ℕ
unfolding scan_port
parse_port s = scan_port s 0

-- The certificate's text for a file, whether an address is one of IP, whether a name with a port can
-- be resolved, what a HEAD request gives, whether the error of a failed `Stat` says that a file
-- exists, and the directory for temporary files.
pub record Surroundings (C : Type 0) : Type 0 where
  pub encode : C → Bytes
  pub is_ip : Bytes → Bool
  pub resolves : Bytes → Bool
  pub head : Bytes → Option C
  pub exist_error : Bool
  pub temp_dir : Bytes

module _ (x : Certificates) (o : Surroundings x.Certificate) where
  open x use {Certificate}

  abbrev pub Form : Type 0
  Form = ConnectForm Certificate

  -- The port is read from the field of the address.
  abbrev pub target_of : Form → Bytes
  target_of f = f.address ++ (b':' ∷ format_uint (parse_port f.address))

  unfoldable pub address_done : Form → Form
  address_done f =
      if o.resolves (target_of f)
      then record f {
        cert_data = o.head f.address;
        address_marked = f.address_marked || not (o.is_ip f.address);
      }
      else record f { cert_data = none; address_marked = true }

  -- `os.IsExist(err)`
  abbrev pub is_exist : {T : Type 0} → Stat T → Bool
  is_exist (found n t d) = false
  is_exist not_exist = false
  is_exist stat_failed = o.exist_error

  abbrev pub mark_cert : Form → Form
  mark_cert f = record f { cert_marked = true }

  abbrev pub take_verdict : Form → Verdict Certificate → Form
  take_verdict f v = if v.valid then record f { cert_data = v.certificate } else mark_cert f

  abbrev pub check_file : {T : Type 0} → Disk T → Form → Option Certificate → Form
  check_file disk f (some c) = f
  check_file disk f none =
      if is_exist (os_stat disk f.cert_file)
      then take_verdict f (verify_cert x disk f.cert_file f.address)
      else mark_cert f

  unfoldable pub cert_done : {T : Type 0} → Disk T → Form → Form
  cert_done disk f = check_file disk (if f.use_tls then f else mark_cert f) f.cert_data

  abbrev pub certfile_path : Bytes
  certfile_path = join (o.temp_dir ∷ codes "torrxfercert.pem" ∷ [])

  abbrev pub wants_tls : Form → Option Certificate → Bool
  wants_tls f (some c) = true
  wants_tls f none = f.use_tls

  abbrev pub config_of : Form → Bool → ServerConnectionConfig
  config_of f tls = record {
    address = f.address;
    port = parse_port f.port;
    use_tls = tls;
    cert_file = certfile_path;
  }

  -- `os.Create` and `pem.Encode`; each failure ends the process.
  abbrev pub write_opened : {T : Type 0} → T → Certificate → Option (Disk T) → Outcome (Disk T)
  write_opened now c none = exits
  write_opened now c (some d) =
      if d.refuses write_call certfile_path
      then exits
      else done (record d { entries = insert certfile_path (regular (o.encode c) now) d.entries })

  abbrev pub write_cert : {T : Type 0} → Disk T → T → Certificate → Outcome (Disk T)
  write_cert disk now c = write_opened now c (open_file disk certfile_path now)

  abbrev pub store_cert : {T : Type 0} → Disk T → T → Bool → Option Certificate → Outcome (Disk T)
  store_cert disk now false cert = done disk
  store_cert disk now true none = exits
  store_cert disk now true (some c) = write_cert disk now c

  abbrev pub with_config :
      {T : Type 0}
      → ServerConnectionConfig
      → Outcome (Disk T)
      → Outcome (Disk T × ServerConnectionConfig)
  with_config conf exits = exits
  with_config conf (done disk) = done (disk, conf)

  -- The disk and the configuration that `ConnectServer` is called with.
  unfoldable pub connect_pressed :
      {T : Type 0} → Disk T → T → Form → Outcome (Disk T × ServerConnectionConfig)
  connect_pressed disk now f =
      let tls = wants_tls f f.cert_data in
      with_config (config_of f tls) (store_cert disk now tls f.cert_data)
