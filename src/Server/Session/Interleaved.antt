-- ===== src/Server/Session/Interleaved.antt =====
-- An upload to a server whose other clients ask and send at the same time: the client's thread among
-- the operations of all, beside the same thread alone.
use mathlib.Core.Path.{subst}
use mathlib.Core.Option.{some-injective}
use torrxfer.Base.{
  ℕ, ◌==◌, ◌≡◌, ◌≢◌, inl, inr, refl, Bool, true, false, List, [], ◌∷◌, ◌++◌, none, some, arith, All,
  eq_bytes, eq_bytes_iff, eq_bytes_sound, if◌then◌else◌, Option-cases,
}
use torrxfer.Disk.Directories.{IsApart}
use torrxfer.Text.{Bytes}
use torrxfer.Platform.{Platform}
use torrxfer.Database.{Database}
use torrxfer.Net.File.{done, exits}
use torrxfer.Server.Writer.{Machine}
use torrxfer.Server.Writer.Schedule
use torrxfer.Server.Writer.Schedule.{Event, handle, run, handle-transfer, handle-close}
use torrxfer.Server.State.{Server, transfer_function, close_client, thread_step}
use torrxfer.Server.Query.{Reply}
use torrxfer.Server.Session.{Operation, query, transfer, close, tick, after_reply, operate}
use torrxfer.Server.Session.Apart.{path_below, InReply, query_function-InReply}
use torrxfer.Server.Session.Frame.{operate_all}
use torrxfer.Server.Session.Beside.{
  IsBeside, IsBeside-IsKept, own_transfer, own_close, own_step, other_transfer, other_close,
  other_step,
}

module _ (w : Platform) (d : Database) where
  open w use {Time}

  -- What the thread `i` of the client `c` sees of an operation.
  abbrev pub seen : Bytes → ℕ → Operation w d → List (Event Time)
  seen c i (query k file t u n) = []
  seen c i (transfer k b o) = if eq_bytes k c then Schedule.transfer b o ∷ [] else []
  seen c i (close k) = if eq_bytes k c then Schedule.close ∷ [] else []
  seen c i (tick j now) = if j == i then Schedule.tick now ∷ [] else []

  unfoldable pub all_seen : Bytes → ℕ → List (Operation w d) → List (Event Time)
  all_seen c i [] = []
  all_seen c i (op ∷ ops) = seen c i op ++ all_seen c i ops

  -- A query is from another client, and for another path below the directory.
  abbrev pub IsOfOthers : Bytes → Bytes → Bytes → Operation w d → Type 0
  IsOfOthers c root q (query k file t u n) = (k ≢ c) × (IsApart q (path_below w d root file))
  IsOfOthers c root q _ = Unit

  -- The client calls only when no `Write` of its waits.
  abbrev pub MayCall : Machine w d → Event Time → Type 0
  MayCall m (Schedule.tick now) = Unit
  MayCall m _ = m.writer.pending ≡ none

  abbrev pub IsPatient : Machine w d → List (Event Time) → Type 0
  IsPatient m [] = Unit
  IsPatient m (e ∷ es) = MayCall m e × IsPatient (handle w d m e) es

  run-append :
      (m : Machine w d) (es fs : List (Event Time))
      → run w d m (es ++ fs) ≡ run w d (run w d m es) fs
  unfolding run
  run-append m [] fs = refl
  run-append m (e ∷ es) fs = run-append (handle w d m e) es fs

  IsPatient-append :
      (m : Machine w d) (es fs : List (Event Time))
      → IsPatient m (es ++ fs)
      → IsPatient m es × IsPatient (run w d m es) fs
  unfolding run
  IsPatient-append m [] fs p = (tt, p)
  IsPatient-append m (e ∷ es) fs (h, p) =
      let (k, l) = IsPatient-append (handle w d m e) es fs p in ((h, k), l)

  module _ (c : Bytes) (i : ℕ) (root q : Bytes) where
    abbrev Beside : Machine w d → Server w d → Type 0
    Beside = IsBeside w d c i root q

    reply-IsBeside :
        (k : Bytes) (m : Machine w d) (other : k ≢ c) (o : Reply w d) (s' : Server w d)
        → after_reply w d o ≡ some s'
        → InReply w d root q k (Beside m) (IsBeside-IsKept w d c i root q m k other) o
        → Beside m s'
    reply-IsBeside k m other exits s' e v = absurd (ground arith)
    reply-IsBeside k m other (done (s, r)) s' e v = subst (Beside m) (some-injective s s' e) v

    transfer-IsBeside :
        (m : Machine w d) (s : Server w d) (k b : Bytes) (o : ℕ) (own : Bool)
        → eq_bytes k c ≡ own
        → IsPatient m (if own then Schedule.transfer b o ∷ [] else [])
        → Beside m s
        → Beside
            (run w d m (if own then Schedule.transfer b o ∷ [] else []))
            (transfer_function w d s k b o).0
    unfolding run
    transfer-IsBeside m s k b o true e (free, _) v =
        rw (eq_bytes_sound k c e) (own_transfer w d c i root q m s b o free v)
    transfer-IsBeside m s k b o false e p v =
        other_transfer w d c i root q m s k b o (λ same. ground (arith, eq_bytes_iff k c)) v

    close-IsBeside :
        (m : Machine w d) (s : Server w d) (k : Bytes) (own : Bool)
        → eq_bytes k c ≡ own
        → IsPatient m (if own then Schedule.close ∷ [] else [])
        → Beside m s
        → Beside (run w d m (if own then Schedule.close ∷ [] else [])) (close_client w d s k)
    unfolding run
    close-IsBeside m s k true e (free, _) v =
        rw (eq_bytes_sound k c e) (own_close w d c i root q m s free v)
    close-IsBeside m s k false e p v =
        other_close w d c i root q m s k (λ same. ground (arith, eq_bytes_iff k c)) v

    tick-IsBeside :
        (m : Machine w d) (s : Server w d) (j : ℕ) (now : Time) (own : Bool)
        → (j == i) ≡ own
        → Beside m s
        → Beside (run w d m (if own then Schedule.tick now ∷ [] else [])) (thread_step w d s j now)
    unfolding run handle
    tick-IsBeside m s j now true e v =
        let same : j ≡ i = ground arith in rw same (own_step w d c i root q m s now v)
    tick-IsBeside m s j now false e v = other_step w d c i root q m s j now (λ same. ground arith) v

    operate-IsBeside :
        (m : Machine w d) (s s' : Server w d) (op : Operation w d)
        → IsOfOthers c root q op
        → IsPatient m (seen c i op)
        → operate w d s op ≡ some s'
        → Beside m s
        → Beside (run w d m (seen c i op)) s'
    unfolding operate run
    operate-IsBeside m s s' (query k file t u n) (other, away) p e v =
        reply-IsBeside k m other _ s' e (
          query_function-InReply w d root q k (Beside m) (IsBeside-IsKept w d c i root q m k other)
            s file t u n away v)
    operate-IsBeside m s s' (transfer k b o) others p e v =
        subst (Beside (run w d m (seen c i (transfer k b o)))) (some-injective _ s' e)
          (transfer-IsBeside m s k b o (eq_bytes k c) refl p v)
    operate-IsBeside m s s' (close k) others p e v =
        subst (Beside (run w d m (seen c i (close k)))) (some-injective _ s' e)
          (close-IsBeside m s k (eq_bytes k c) refl p v)
    operate-IsBeside m s s' (tick j now) others p e v =
        subst (Beside (run w d m (seen c i (tick j now)))) (some-injective _ s' e)
          (tick-IsBeside m s j now (j == i) refl v)

    pub operate_all-IsBeside :
        (ops : List (Operation w d)) (m : Machine w d) (s s' : Server w d)
        → All (IsOfOthers c root q) ops
        → IsPatient m (all_seen c i ops)
        → operate_all w d s ops ≡ some s'
        → Beside m s
        → Beside (run w d m (all_seen c i ops)) s'
    unfolding operate_all all_seen run
    operate_all-IsBeside [] m s s' others p e v = subst (Beside m) (some-injective s s' e) v
    operate_all-IsBeside (op ∷ ops) m s s' (other, others) p e v =
        elim (Option-cases (operate w d s op)) [
          | inl k ↦ absurd (ground arith)
          | inr (next, k) ↦
              let (now, later) = IsPatient-append m (seen c i op) (all_seen c i ops) p in
              rw (run-append m (seen c i op) (all_seen c i ops)) (
                operate_all-IsBeside ops (run w d m (seen c i op)) next s' others later (rw k at e)
                  (operate-IsBeside m s next op other now k v))
        ]
