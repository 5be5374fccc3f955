-- ===== src/Client/Display/ConnectForm/Pressed.antt =====
-- What the button Connect leads to.
use torrxfer.Base.{
  ℕ, ◌+◌, ◌-◌, ◌*◌, ◌≤◌, ◌≡◌, ◌≢◌, refl, Bool, true, false, [], ◌∷◌, none, some, arith, lookup,
  insert, lookup-insert, eq_bytes_refl,
}
use torrxfer.Text.{Bytes}
use torrxfer.Disk.{
  Disk, Call, open_call, read_call, write_call, found, regular, os_stat, open_file, read_file,
}
use torrxfer.Net.File.{done, exits}
use torrxfer.Net.Dial.{ServerConnectionConfig, Transport, tls, new_torrxfer_server_connection}
use torrxfer.Net.Dial.Trust.{trusts_unverified}
use torrxfer.Crypto.{Certificates}
use torrxfer.Client.Display.ConnectForm.{
  Surroundings, max_u32, scan_port, parse_port, Form, cert_done, connect_pressed, certfile_path,
  config_of, mark_cert, write_cert,
}

scan_port_bounded : (s : Bytes) (n : ℕ) → n ≤ max_u32 → scan_port s n ≤ max_u32
unfolding scan_port
scan_port_bounded [] n h = h
scan_port_bounded (c ∷ s) n h = ground (arith, scan_port_bounded s (n * 10 + (c - b'0')))

module _ (x : Certificates) (o : Surroundings x.Certificate) where
  open x use {Certificate, decode, parse}

  cert_done-marked :
      {T : Type 0} (disk : Disk T) (time : T) (f : Form x o) (n : ℕ) (d : Bool)
      → f.use_tls ≡ true
      → f.cert_data ≡ none
      → os_stat disk f.cert_file ≡ found n time d
      → cert_done x o disk f ≡ mark_cert x o f
  unfolding cert_done
  cert_done-marked disk time f n d t c h = rw (c, t, h) refl

  pressed_exits :
      {T : Type 0} (disk : Disk T) (now : T) (f : Form x o)
      → f.use_tls ≡ true
      → f.cert_data ≡ none
      → connect_pressed x o disk now f ≡ exits
  unfolding connect_pressed
  pressed_exits disk now f t c = rw (c, t) refl

  -- A file that is there never gives the form its certificate, whether or not it is valid: unless
  -- the address has given one, pressing Connect with TLS then ends the process.
  pub no_certificate :
      {T : Type 0} (disk : Disk T) (now time : T) (f : Form x o) (n : ℕ) (d : Bool)
      → f.use_tls ≡ true
      → f.cert_data ≡ none
      → os_stat disk f.cert_file ≡ found n time d
      → (cert_done x o disk f ≡ mark_cert x o f)
        × (connect_pressed x o disk now (cert_done x o disk f) ≡ exits)
  unfolding cert_done connect_pressed
  no_certificate disk now time f n d t c h =
      let marked = cert_done-marked disk time f n d t c h in
      (marked, rw marked (pressed_exits disk now (mark_cert x o f) t c))

  -- The disk with the certificate's file, which was created empty.
  abbrev with_cert : {T : Type 0} → Disk T → T → Certificate → Disk T
  with_cert disk now c = record disk {
    entries =
        insert (certfile_path x o) (regular (o.encode c) now)
          (insert (certfile_path x o) (regular [] now) disk.entries);
  }

  write_cert-with_cert :
      {T : Type 0} (disk : Disk T) (now : T) (c : Certificate)
      → ((call : Call) → disk.refuses call (certfile_path x o) ≡ false)
      → lookup (certfile_path x o) disk.entries ≡ none
      → (write_cert x o disk now c ≡ done (with_cert disk now c))
        × (read_file (with_cert disk now c) (certfile_path x o) ≡ some (o.encode c))
  unfolding open_file read_file
  write_cert-with_cert disk now c willing e = (
    rw (willing open_call, e, willing write_call) refl,
    rw
        (
          willing open_call,
          willing read_call,
          lookup-insert (certfile_path x o) (certfile_path x o) (regular (o.encode c) now)
              (insert (certfile_path x o) (regular [] now) disk.entries),
          eq_bytes_refl (certfile_path x o),
        )
        refl,
  )

  -- The form has a certificate from the address, which is read back from its text, and an address;
  -- the disk refuses nothing at the certificate's path and has no old file there. Then pressing
  -- Connect, with or without the check box, writes the certificate to that file, and calls
  -- `ConnectServer` with a port that is a uint32, whatever the port's text is; where dialling works,
  -- the connection trusts that certificate.
  pub connect_pressed-trusts :
      {T : Type 0} (dial : Bytes → Transport Certificate → Bool) (disk : Disk T) (now : T)
      (f : Form x o) (c : Certificate) (block rest : Bytes)
      → f.cert_data ≡ some c
      → f.address ≢ []
      → decode (o.encode c) ≡ some (block, rest)
      → parse block ≡ some c
      → ((call : Call) → disk.refuses call (certfile_path x o) ≡ false)
      → lookup (certfile_path x o) disk.entries ≡ none
      → ((q : Bytes) (t : Transport Certificate) → dial q t ≡ true)
      → (disk' : Disk T) × (conf : ServerConnectionConfig) × (connect_pressed x o disk now f
          ≡ done (disk', conf))
        × (conf.port ≤ max_u32)
        × (new_torrxfer_server_connection x dial disk' conf ≡ some (tls f.address (c ∷ [])))
  unfolding connect_pressed parse_port
  connect_pressed-trusts dial disk now f c block rest k ne dec par willing e dials =
      let (wrote, read) = write_cert-with_cert disk now c willing e in
      let disk' = with_cert disk now c in
      (
        disk',
        config_of x o f true,
        rw (k, wrote) refl,
        scan_port_bounded f.port 0 (omega arith),
        (trusts_unverified x dial disk' (config_of x o f true) (o.encode c) block rest c refl ne
            read dec par (dials _ _)).0,
      )
