-- ===== src/Server/Session/Access.antt =====
-- Who may transfer: the invariant of the table of the active files, and what follows from it.
use mathlib.Core.Path.{subst}
use mathlib.Core.Option.{some-injective}
use torrxfer.Base.{
  ℕ, ◌<◌, ◌≡◌, ◌≢◌, ◌⊎◌, inl, inr, true, false, List, ◌∷◌, Option, none, some, arith, length,
  lookup, lookup-insert, Option-cases, get_elem?_of_lt,
}
use torrxfer.Text.{Bytes}
use torrxfer.Platform.{Platform}
use torrxfer.Database.{Database}
use torrxfer.Net.File.{done, exits}
use torrxfer.Server.State.{Server, is_file_active, transfer_function, close_client}
use torrxfer.Server.Query.{Reply}
use torrxfer.Server.Session.{
  contains, Operation, query, transfer, close, tick, after_reply, operate, asked, Reach, fresh,
  later,
}
use torrxfer.Server.Session.Table.{
  Keeps, Gives, GivesReply, thread_step-Keeps, transfer_at-Keeps, close_at-Keeps,
  query_function-Gives,
}

module _ (w : Platform) (d : Database) where
  open w use {Time}

  -- Every client of the table has a writer, and has asked before.
  record Inv (cs : List Bytes) (s : Server w d) : Type 0 where
    in_range : (c : Bytes) (i : ℕ) → lookup c s.active_files ≡ some i → i < length s.writers
    known : (c : Bytes) (i : ℕ) → lookup c s.active_files ≡ some i → contains cs c ≡ true

  Keeps-Inv : (cs : List Bytes) (s s' : Server w d) → Keeps w d s s' → Inv cs s → Inv cs s'
  Keeps-Inv cs s s' (a, n) v = record {
    in_range = λ c i h. ground (arith, v.in_range c i);
    known = λ c i h. ground (arith, v.known c i);
  }

  Gives-Inv :
      (cs : List Bytes) (c : Bytes) (s s' : Server w d)
      → Gives w d c s s'
      → Inv cs s
      → Inv (c ∷ cs) s'
  Gives-Inv cs c s s' g v = record {
    in_range = λ k i h.
        ground (arith, v.in_range k i, lookup-insert c k (length s.writers) s.active_files);
    known =
        λ k i h. ground (arith, v.known k i, lookup-insert c k (length s.writers) s.active_files);
  }

  reply-Inv :
      (cs : List Bytes) (c : Bytes) (s s' : Server w d) (o : Reply w d)
      → after_reply w d o ≡ some s'
      → GivesReply w d c s o
      → Inv cs s
      → Inv (c ∷ cs) s'
  reply-Inv cs c s s' exits h g v = absurd (ground arith)
  reply-Inv cs c s s' (done (x, r)) h g v =
      subst (Inv (c ∷ cs)) (some-injective x s' h) (Gives-Inv cs c s x g v)

  kept-Inv :
      (cs : List Bytes) (s x s' : Server w d)
      → ◌≡◌ {A = Option (Server w d)} (some x) (some s')
      → Keeps w d s x
      → Inv cs s
      → Inv cs s'
  kept-Inv cs s x s' h k v = subst (Inv cs) (some-injective x s' h) (Keeps-Inv cs s x k v)

  operate-Inv :
      (cs : List Bytes) (s s' : Server w d) (op : Operation w d)
      → operate w d s op ≡ some s'
      → Inv cs s
      → Inv (asked w d op cs) s'
  unfolding operate transfer_function close_client
  operate-Inv cs s s' (query c file t u n) h v =
      reply-Inv cs c s s' _ h (query_function-Gives w d s c file t u n) v
  operate-Inv cs s s' (transfer c b o) h v =
      kept-Inv cs s _ s' h (transfer_at-Keeps w d s b o (is_file_active w d s c)) v
  operate-Inv cs s s' (close c) h v =
      kept-Inv cs s _ s' h (close_at-Keeps w d s (is_file_active w d s c)) v
  operate-Inv cs s s' (tick i now) h v = kept-Inv cs s _ s' h (thread_step-Keeps w d s i now) v

  Reach-Inv : {cs : List Bytes} {s : Server w d} → Reach w d cs s → Inv cs s
  unfolding lookup
  Reach-Inv (fresh s e) = record {
    in_range = λ c i h. absurd (ground arith);
    known = λ c i h. absurd (ground arith);
  }
  Reach-Inv (later {cs} {s} {s'} r op h e) = rw e (operate-Inv cs s s' op h (Reach-Inv r))

  -- The file of every client in the table is one of the writers.
  pub Reach-in_range :
      {cs : List Bytes} {s : Server w d}
      → Reach w d cs s
      → (c : Bytes) (i : ℕ) → lookup c s.active_files ≡ some i
      → i < length s.writers
  Reach-in_range r c i e = (Reach-Inv r).in_range c i e

  -- In every state that the server can reach, a transferred block is accepted exactly for the
  -- clients with an active file, and these have asked for a file before; for the others the
  -- call fails and changes nothing.
  pub transfer_function_outcome :
      {cs : List Bytes} {s : Server w d}
      → Reach w d cs s
      → (c b : Bytes) (o : ℕ)
      → (((transfer_function w d s c b o).1 ≡ true)
          × (is_file_active w d s c ≢ none)
          × (contains cs c ≡ true))
        ⊎ ((transfer_function w d s c b o ≡ (s, false)) × (is_file_active w d s c ≡ none))
  unfolding transfer_function
  transfer_function_outcome {cs} {s} r c b o = elim (Option-cases (is_file_active w d s c)) [
    | inl e ↦ inr (rw e, e)
    | inr (i, e) ↦
        let at : lookup c s.active_files ≡ some i = unfold is_file_active in e in
        let (x, present) = get_elem?_of_lt s.writers i ((Reach-Inv r).in_range c i at) in
        inl (rw (e, present), ground arith, (Reach-Inv r).known c i at)
  ]
