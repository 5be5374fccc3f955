-- ===== src/Server/Session/Frame.antt =====
-- Any sequence of calls and of steps of the threads, and a path that none of it is for.
use mathlib.Core.Path.{subst}
use mathlib.Core.Option.{some-injective}
use torrxfer.Base.{
  ◌≡◌, inl, inr, refl, List, [], ◌∷◌, Option, some, arith, All, lookup, Option-cases, ◌>>=◌,
}
use torrxfer.Disk.Directories.{IsApart}
use torrxfer.Text.{Bytes}
use torrxfer.Platform.{Platform}
use torrxfer.Database.{Database}
use torrxfer.Disk.{Entry}
use torrxfer.Net.File.{done, exits}
use torrxfer.Server.State.{Server, is_file_active, transfer_function, close_client}
use torrxfer.Server.Query.{Reply}
use torrxfer.Server.Session.{Operation, query, transfer, close, tick, after_reply, operate}
use torrxfer.Server.Session.Elsewhere.{IsElsewhere}
use torrxfer.Server.Session.Untouched.{
  IsUntouched, IsUntouched-IsKept, thread_step-IsUntouched, transfer_at-IsUntouched,
  close_at-IsUntouched,
}
use torrxfer.Server.Session.Apart.{path_below, InReply, query_function-InReply}

module _ (w : Platform) (d : Database) where
  open w use {Time}

  -- One operation after another; `none` if the process has ended.
  unfoldable pub operate_all : Server w d → List (Operation w d) → Option (Server w d)
  operate_all s [] = some s
  operate_all s (op ∷ ops) = do s' ← operate w d s op; operate_all s' ops

  -- A query is neither for `q` nor for a path below it, on a server with this directory.
  abbrev pub Avoids : Bytes → Bytes → Operation w d → Type 0
  Avoids root q (query c file t u n) = IsApart q (path_below w d root file)
  Avoids root q _ = Unit

  module _ (root q : Bytes) (entry : Option (Entry Time)) where
    reply-IsUntouched :
        (c : Bytes) (o : Reply w d) (s' : Server w d)
        → after_reply w d o ≡ some s'
        → InReply w d root q c
            (IsUntouched w d root q entry)
            (IsUntouched-IsKept w d root q entry c)
            o
        → IsUntouched w d root q entry s'
    reply-IsUntouched c exits s' e v = absurd (ground arith)
    reply-IsUntouched c (done (s, r)) s' e v =
        subst (IsUntouched w d root q entry) (some-injective s s' e) v

    operate-IsUntouched :
        (s s' : Server w d) (op : Operation w d)
        → Avoids root q op
        → operate w d s op ≡ some s'
        → IsUntouched w d root q entry s
        → IsUntouched w d root q entry s'
    unfolding operate transfer_function close_client
    operate-IsUntouched s s' (query c file t u n) avoids e v = reply-IsUntouched c _ s' e (
        query_function-InReply w d root q c (IsUntouched w d root q entry)
          (IsUntouched-IsKept w d root q entry c) s file t u n avoids v)
    operate-IsUntouched s s' (transfer c b o) avoids e v =
        subst (IsUntouched w d root q entry) (some-injective _ s' e)
          (transfer_at-IsUntouched w d root q entry s b o (is_file_active w d s c) v)
    operate-IsUntouched s s' (close c) avoids e v =
        subst (IsUntouched w d root q entry) (some-injective _ s' e)
          (close_at-IsUntouched w d root q entry s (is_file_active w d s c) v)
    operate-IsUntouched s s' (tick i now) avoids e v =
        subst (IsUntouched w d root q entry) (some-injective _ s' e)
          (thread_step-IsUntouched w d root q entry s i now v)

    operate_all-IsUntouched :
        (ops : List (Operation w d)) (s s' : Server w d)
        → All (Avoids root q) ops
        → operate_all s ops ≡ some s'
        → IsUntouched w d root q entry s
        → IsUntouched w d root q entry s'
    unfolding operate_all
    operate_all-IsUntouched [] s s' avoids e v =
        subst (IsUntouched w d root q entry) (some-injective s s' e) v
    operate_all-IsUntouched (op ∷ ops) s s' (avoid, avoids) e v =
        elim (Option-cases (operate w d s op)) [
          | inl k ↦ absurd (ground arith)
          | inr (next, k) ↦
              operate_all-IsUntouched ops next s' avoids (rw k at e)
                (operate-IsUntouched s next op avoid k v)
        ]

  -- Whatever calls come to a server and however its threads take their steps, what stands at a path
  -- stays as it is, no file or directory is made there, and no writer is for it or for a path below
  -- it, if no query is for the path or a path below it, and no writer was before.
  pub operate_all-keeps :
      (ops : List (Operation w d)) (s s' : Server w d) (q : Bytes)
      → All (IsElsewhere w d q) s.writers
      → All (Avoids s.server_root_dir q) ops
      → operate_all s ops ≡ some s'
      → (lookup q s'.disk.entries ≡ lookup q s.disk.entries) × All (IsElsewhere w d q) s'.writers
  operate_all-keeps ops s s' q elsewhere avoids e =
      let v =
        operate_all-IsUntouched s.server_root_dir q (lookup q s.disk.entries) ops s s' avoids e
          (record { at_root = refl; there = refl; elsewhere = elsewhere }) in
      (v.there, v.elsewhere)
