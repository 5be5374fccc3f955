-- ===== src/Server/Endpoint/Settled.antt =====
-- What no call and no thread of the server changes: its directory, and what its disk refuses.
use torrxfer.Base.{ℕ, ◌≡◌, inl, inr, false, Option-cases, List, [], ◌∷◌, Option, get_elem?}
use torrxfer.Text.{Bytes}
use torrxfer.Platform.{Platform}
use torrxfer.Database.{Database}
use torrxfer.Disk.{Call}
use torrxfer.Net.Sender.{Request}
use torrxfer.Net.Handler.Laws.{received}
use torrxfer.Net.Handler.Keeps.{KeptMeanwhile, transfer_file-keeps}
use torrxfer.Net.Handler.{Metadata, Status, transfer_file}
use torrxfer.Net.File.{done}
use torrxfer.Server.State.{Server, is_file_active, transfer_function, close_client, thread_step}
use torrxfer.Server.Endpoint.{endpoint}
use torrxfer.Server.Writer.Local.{writer_step-refuses}
use torrxfer.Server.Endpoint.Placed.{twice}
use torrxfer.Server.Endpoint.Upload.{sent_blocks, later_blocks}

module _ (w : Platform) (d : Database) where
  open w use {Time}

  -- The directory of the server, and a disk that refuses nothing.
  pub record IsSettled (root : Bytes) (s : Server w d) : Type 0 where
    pub at_root : s.server_root_dir ≡ root
    pub willing : (call : Call) (p : Bytes) → s.disk.refuses call p ≡ false

  module _ (root : Bytes) where
    pub thread_step-IsSettled :
        (s : Server w d) (i : ℕ) (now : Time)
        → IsSettled root s
        → IsSettled root (thread_step w d s i now)
    unfolding thread_step
    thread_step-IsSettled s i now v = elim (Option-cases (get_elem? s.writers i)) [
      | inl e ↦ rw e v
      | inr (x, e) ↦ rw e (record {
        at_root = v.at_root;
        willing = λ call p.
            rw (writer_step-refuses w d (record { writer = x; disk = s.disk; db = s.db }) now)
              (v.willing call p);
      })
    ]

    pub twice-IsSettled :
        (i : ℕ) (now : Time) (s : Server w d)
        → IsSettled root s
        → IsSettled root (twice w d i now s)
    twice-IsSettled i now s v =
        thread_step-IsSettled (thread_step w d s i now) i now (thread_step-IsSettled s i now v)

    transfer_function-IsSettled :
        (s : Server w d) (c b : Bytes) (o : ℕ)
        → IsSettled root s
        → IsSettled root (transfer_function w d s c b o).0
    unfolding transfer_function
    transfer_function-IsSettled s c b o v = elim (Option-cases (is_file_active w d s c)) [
      | inl e ↦ rw e v
      | inr (i, e) ↦ elim (Option-cases (get_elem? s.writers i)) [
        | inl k ↦ rw (e, k) v
        | inr (x, k) ↦ rw (e, k) (record { at_root = v.at_root; willing = v.willing })
      ]
    ]

    close_client-IsSettled :
        (s : Server w d) (c : Bytes) → IsSettled root s → IsSettled root (close_client w d s c)
    unfolding close_client
    close_client-IsSettled s c v = elim (Option-cases (is_file_active w d s c)) [
      | inl e ↦ rw e v
      | inr (i, e) ↦ elim (Option-cases (get_elem? s.writers i)) [
        | inl k ↦ rw (e, k) v
        | inr (x, k) ↦ rw (e, k) (record { at_root = v.at_root; willing = v.willing })
      ]
    ]

    later_blocks-Kept :
        (i : ℕ) (now : Time) (rs : List Request)
        → KeptMeanwhile (endpoint w d) (IsSettled root) (received (later_blocks w d i now rs))
    later_blocks-Kept i now [] = tt
    later_blocks-Kept i now (r ∷ rs) =
        (λ s v. thread_step-IsSettled s i now v, later_blocks-Kept i now rs)

    sent_blocks-Kept :
        (i : ℕ) (now : Time) (rs : List Request)
        → KeptMeanwhile (endpoint w d) (IsSettled root) (received (sent_blocks w d i now rs))
    sent_blocks-Kept i now [] = tt
    sent_blocks-Kept i now (r ∷ rs) = (λ s v. twice-IsSettled i now s v, later_blocks-Kept i now rs)

    -- A call whose blocks come from a sender, with the steps of a writer between them.
    pub transfer_file-IsSettled :
        (md : Metadata) (i : ℕ) (now : Time) (rs : List Request) (s s' : Server w d)
        (st : Option Status)
        → IsSettled root s
        → transfer_file (endpoint w d) md (received (sent_blocks w d i now rs)) s ≡ done (s', st)
        → IsSettled root s'
    unfolding endpoint
    transfer_file-IsSettled md i now rs s s' st v e =
        transfer_file-keeps (endpoint w d) (IsSettled root)
          (λ t c b n o k. transfer_function-IsSettled t c b o k) close_client-IsSettled md
          (received (sent_blocks w d i now rs)) s s' st (sent_blocks-Kept i now rs) v e
