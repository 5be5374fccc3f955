-- ===== src/Tests/Screens.antt =====
-- What a client shows, at concrete data.
use torrxfer.Base.{
  ℕ, ◌≡◌, ◌≢◌, ◌⊎◌, refl, true, false, none, some, [], ◌∷◌, arith, length, get_elem?, lookup,
  eq_bytes,
}
use torrxfer.Text.{Bytes, codes}
use torrxfer.Disk.{Disk, regular, os_stat, found}
use torrxfer.Net.File.{done, exits}
use torrxfer.Crypto.{Certificates}
use torrxfer.Client.Connection.{ServerConnection, connected, disconnected, files_updated, get_index}
use torrxfer.Client.Display.Elements.{StatusView, Screen, update_server_state}
use torrxfer.Client.Display.Elements.Removal.{later_disconnect}
use torrxfer.Client.Display.Elements.NilFiles.{update_server_state-files}
use torrxfer.Client.Display.ConnectForm.{
  ConnectForm, Surroundings, cert_done, connect_pressed, mark_cert,
}
use torrxfer.Client.Display.ConnectForm.Pressed.{no_certificate}
use torrxfer.Tests.Clients.{connection}

abbrev view : ℕ → StatusView ℕ
view n = record { title = codes "h"; connected_since = n; bytes_transferred = 0 }

abbrev screen : Screen ℕ
screen = record { elements = view 0 ∷ view 1 ∷ view 2 ∷ []; progress_bars = [] ∷ [] ∷ [] ∷ [] }

abbrev numbered : ℕ → ServerConnection ℕ
numbered n = record connection { index = n }

later_disconnect_example :
    (s1 : Screen ℕ) × (update_server_state
        (λ _. codes "/f")
        (λ _. 5)
        true
        screen
        disconnected
        (numbered 0)
      ≡ done s1)
    × (get_elem? s1.elements 0 ≡ some (view 1))
    × (((◌≡◌ {A = ℕ} 2 3)
          × (update_server_state (λ _. codes "/f") (λ _. 5) true s1 disconnected (numbered 1)
              ≡ exits))
        ⊎ ((s2 : Screen ℕ) × (update_server_state
                (λ _. codes "/f")
                (λ _. 5)
                true
                s1
                disconnected
                (numbered 1)
              ≡ done s2)
            × (get_elem? s2.elements 0 ≡ some (view 1))
            × (get_elem? s2.elements 1 ≡ none)))
unfolding get_index
later_disconnect_example =
    later_disconnect (λ _. codes "/f") (λ _. 5) true screen (numbered 0) (numbered 1) 0
      (omega arith) refl (omega arith)

update_server_state-files_example :
    (connection.files_transferred ≢ []
      → (update_server_state (λ _. codes "/f") (λ _. 5) true screen connected connection ≡ exits)
        × (update_server_state (λ _. codes "/f") (λ _. 5) true screen files_updated connection
            ≡ exits))
    × (connection.files_transferred ≡ []
        → (update_server_state (λ _. codes "/f") (λ _. 5) true screen files_updated connection
            ≡ done screen)
          × ((s' : Screen ℕ) × (update_server_state
                  (λ _. codes "/f")
                  (λ _. 5)
                  true
                  screen
                  connected
                  connection
                ≡ done s')
              × (length s'.elements ≡ 4)
              × (get_elem? s'.progress_bars 3 ≡ some [])))
update_server_state-files_example =
    update_server_state-files (λ _. codes "/f") (λ _. 5) true screen connection

-- A file is one block, which is its certificate, and each is valid.
abbrev certificates : Certificates
certificates = record {
  Certificate = Bytes;
  decode = λ b. some (b, []);
  parse = some;
  verifies = λ c host roots. true;
}

abbrev surroundings : Surroundings Bytes
surroundings = record {
  encode = λ c. c;
  is_ip = λ _. true;
  resolves = λ _. true;
  head = λ _. none;
  exist_error = false;
  temp_dir = codes "/tmp";
}

abbrev disk : Disk ℕ
disk = record { entries = (codes "/c.pem", regular (codes "cert") 7) ∷ []; refuses = λ _ _. false }

abbrev form : ConnectForm Bytes
form = record {
  address = codes "h";
  port = codes "9650";
  cert_file = codes "/c.pem";
  use_tls = true;
  cert_data = none;
  address_marked = false;
  cert_marked = false;
}

found_file : os_stat disk (codes "/c.pem") ≡ found 4 7 false
unfolding os_stat lookup eq_bytes
found_file = refl

no_certificate_example :
    (cert_done certificates surroundings disk form ≡ mark_cert certificates surroundings form)
    × (connect_pressed certificates surroundings disk 8
          (cert_done certificates surroundings disk form)
        ≡ exits)
no_certificate_example =
    no_certificate certificates surroundings disk 8 7 form 4 false refl refl found_file
