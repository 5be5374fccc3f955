-- ===== src/Net/Dial/Trust.antt =====
-- What a client trusts.
use torrxfer.Base.{
  ◌≡◌, ◌≢◌, inl, inr, refl, Bool, true, [], ◌∷◌, some, arith, eq_bytes_iff, Bool-cases,
}
use torrxfer.Text.{Bytes}
use torrxfer.Disk.{Disk, read_file}
use torrxfer.Crypto.{Certificates, verify_cert}
use torrxfer.Net.Dial.{
  ServerConnectionConfig, Transport, tls, transport_of, target, new_torrxfer_server_connection,
}

module _ (x : Certificates) where
  open x use {Certificate, decode, parse, verifies}

  -- The verdict has the certificate in any case.
  verify_cert_lem :
      {T : Type 0} (disk : Disk T) (path hostname content block rest : Bytes) (c : Certificate)
      → read_file disk path ≡ some content
      → decode content ≡ some (block, rest)
      → parse block ≡ some c
      → ((verify_cert x disk path hostname).certificate ≡ some c)
        × ((verify_cert x disk path hostname).valid ≡ verifies c hostname rest)
  unfolding verify_cert
  verify_cert_lem disk path hostname content block rest c r d p =
      rw (r, d, p)
        (elim (Bool-cases (verifies c hostname rest)) [
          | inl e ↦ rw e (refl, refl)
          | inr e ↦ rw e (refl, refl)
        ])

  connects :
      {T : Type 0} (dial : Bytes → Transport Certificate → Bool) (disk : Disk T)
      (conf : ServerConnectionConfig) (t : Transport Certificate)
      → conf.address ≢ []
      → transport_of x disk conf ≡ t
      → dial (target x conf) t ≡ true
      → new_torrxfer_server_connection x dial disk conf ≡ some t
  unfolding new_torrxfer_server_connection
  connects dial disk conf t a e k = rw e (ground (arith, eq_bytes_iff conf.address []))

  -- A connection with TLS trusts the certificate of the configured file, whether or not it could be
  -- verified for the host.
  pub trusts_unverified :
      {T : Type 0} (dial : Bytes → Transport Certificate → Bool) (disk : Disk T)
      (conf : ServerConnectionConfig) (content block rest : Bytes) (c : Certificate)
      → conf.use_tls ≡ true
      → conf.address ≢ []
      → read_file disk conf.cert_file ≡ some content
      → decode content ≡ some (block, rest)
      → parse block ≡ some c
      → dial (target x conf) (tls conf.address (c ∷ [])) ≡ true
      → (new_torrxfer_server_connection x dial disk conf ≡ some (tls conf.address (c ∷ [])))
        × ((verify_cert x disk conf.cert_file conf.address).valid ≡ verifies c conf.address rest)
  trusts_unverified dial disk conf content block rest c t a r d p k =
      let (certificate, valid) =
        verify_cert_lem disk conf.cert_file conf.address content block rest c r d p in
      (connects dial disk conf (tls conf.address (c ∷ [])) a (rw (t, certificate) refl) k, valid)
