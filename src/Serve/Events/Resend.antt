-- ===== src/Serve/Events/Resend.antt =====
-- What a `Watch` receives against all that was ever published (serve/events.go).
use mathlib.Core.List.{append-nil, append_assoc}
use masuda.Common.{
  ℕ, zero, suc, ◌+◌, ◌-◌, ◌≤◌, ◌≡◌, inl, inr, refl, sym, ap, subst, ◌∙◌, List, [], ◌∷◌, ◌++◌, Bool,
  true, leb, same, ◌<◌, ◌⊎◌, ◌&&◌, not, if◌then◌else◌, ltb, ◌==◌, arith, length, drop, take_last,
  length-append, length-drop, drop-append, drop-drop, drop-nil, Bool-cases, Text,
}
use masuda.Serve.Events.{
  Event, EventBus, WatchStart, resume, new_bus, publish, publish_all, oldest_of, watch_start,
}

-- The cut of `publishLocked`.
abbrev bounded {ℓ} : {A : Type ℓ} → ℕ → List A → List A
bounded size xs = if ltb size (length xs) then take_last size xs else xs

-- Appending and cutting again keeps the tail of everything.
take_last_snoc :
    {A : Type 0} (size : ℕ) (xs : List A) (x : A)
    → bounded size (take_last size xs ++ x ∷ []) ≡ take_last size (xs ++ x ∷ [])
take_last_snoc {A} size xs x = elim (Bool-cases (ltb size (length (last ++ x ∷ [])))) [
  | inl over ↦ rw over (drop_more (length (last ++ x ∷ []) - size) (ground (arith, sizes)))
  | inr fits ↦ rw fits (drop_more 0 (ground (arith, sizes)))
]
  where
    cut : ℕ
    cut = length xs - size

    last : List A
    last = take_last size xs

    sizes :
        (length (last ++ x ∷ []) ≡ length xs - cut + 1) × (length (xs ++ x ∷ []) ≡ length xs + 1)
    sizes =
        omega (arith, length-append last (x ∷ []), length-append xs (x ∷ []), length-drop cut xs)

    drop_more :
        (n : ℕ)
        → cut + n ≡ length (xs ++ x ∷ []) - size
        → drop n (last ++ x ∷ []) ≡ take_last size (xs ++ x ∷ [])
    drop_more n e =
        ap (drop n) (sym (drop-append cut xs (x ∷ []) (omega arith)))
        ∙ drop-drop n cut (xs ++ x ∷ [])
        ∙ ap (λ k. drop k (xs ++ x ∷ [])) e

module _ {B : Type 0} where
  unfoldable pub numbered : ℕ → List (Text × B) → List (Event B)
  numbered n [] = []
  numbered n ((id, body) ∷ ds) =
      record { seq = n; workspace_id = id; body = body } ∷ numbered (n + 1) ds

  abbrev sent : ℕ → Text × B → Event B
  sent n (id, body) = record { seq = n; workspace_id = id; body = body }

  -- The buffer is the tail of the log, whose events are numbered from 1.
  record Follows (size : ℕ) (e : EventBus B) (log : List (Event B)) : Type 0 where
    counted : e.seq ≡ length log
    tail : e.events ≡ take_last size log

  publish-Follows :
      (size : ℕ) (id : Text) (body : B) (e : EventBus B) (log : List (Event B))
      → Follows size e log
      → Follows size (publish size id body e) (log ++ sent (length log + 1) (id, body) ∷ [])
  unfolding publish
  publish-Follows size id body e log f = record {
    counted = omega (arith, f.counted, length-append log (sent (length log + 1) (id, body) ∷ []));
    tail =
        ap (λ n. bounded size (e.events ++ sent (n + 1) (id, body) ∷ [])) f.counted
        ∙ ap (λ es. bounded size (es ++ sent (length log + 1) (id, body) ∷ [])) f.tail
        ∙ take_last_snoc size log (sent (length log + 1) (id, body));
  }

  publish_all-Follows :
      (size : ℕ) (e : EventBus B) (log : List (Event B)) (ds : List (Text × B))
      → Follows size e log
      → Follows size (publish_all size e ds) (log ++ numbered (length log + 1) ds)
  unfolding publish_all numbered
  publish_all-Follows size e log [] f = rw append-nil f
  publish_all-Follows size e log ((id, body) ∷ ds) f =
      subst (Follows size (publish_all size (publish size id body e) ds))
        (append_assoc log (ev ∷ []) _ ∙ ap (λ n. log ++ ev ∷ numbered (n + 1) ds) longer)
        (publish_all-Follows size (publish size id body e) (log ++ ev ∷ []) ds
          (publish-Follows size id body e log f))
    where
      ev : Event B
      ev = sent (length log + 1) (id, body)

      longer : length (log ++ ev ∷ []) ≡ length log + 1
      longer = omega (arith, length-append log (ev ∷ []))

  -- The bus after all of `ds` was published.
  abbrev pub after_all : ℕ → List (Text × B) → EventBus B
  after_all size ds = publish_all size new_bus ds

  after_all-Follows :
      (size : ℕ) (ds : List (Text × B)) → Follows size (after_all size ds) (numbered 1 ds)
  unfolding new_bus
  after_all-Follows size ds =
      publish_all-Follows size new_bus [] ds (record { counted = refl; tail = drop-nil (0 - size) })

  length-numbered : (n : ℕ) (ds : List (Text × B)) → length (numbered n ds) ≡ length ds
  unfolding numbered
  length-numbered n [] = refl
  length-numbered n (d ∷ ds) = ap suc (length-numbered (n + 1) ds)

  oldest-drop :
      (seq n k : ℕ) (ds : List (Text × B))
      → k ≤ length ds
      → seq + 1 ≡ n + length ds
      → oldest_of seq (drop k (numbered n ds)) ≡ n + k
  unfolding numbered
  oldest-drop seq n zero [] h e = omega arith
  oldest-drop seq n (suc k) [] h e = absurd (omega arith)
  oldest-drop seq n zero (d ∷ ds) h e = omega arith
  oldest-drop seq n (suc k) (d ∷ ds) h e =
      oldest-drop seq (n + 1) k ds (omega arith) (omega arith) ∙ omega arith

  oldest-after_all :
      (size : ℕ) (ds : List (Text × B))
      → oldest_of (after_all size ds).seq (after_all size ds).events ≡ length ds - size + 1
  oldest-after_all size ds =
      ap (oldest_of (after_all size ds).seq)
        (f.tail ∙ ap (λ n. drop (n - size) (numbered 1 ds)) (length-numbered 1 ds))
      ∙ oldest-drop (after_all size ds).seq 1 (length ds - size) ds (omega arith)
          (omega (arith, f.counted, length-numbered 1 ds))
      ∙ omega arith
    where
      f : Follows size (after_all size ds) (numbered 1 ds)
      f = after_all-Follows size ds

  seq-after_all : (size : ℕ) (ds : List (Text × B)) → (after_all size ds).seq ≡ length ds
  seq-after_all size ds = (after_all-Follows size ds).counted ∙ length-numbered 1 ds

  -- `Watch` after any history: it refuses a number beyond the last event, refuses one whose
  -- successor has left the buffer, and otherwise goes on; 0 asks for the current state.
  pub watch_start-after_all :
      (size after : ℕ) (ds : List (Text × B))
      → watch_start after (after_all size ds) ≡ (
          if ltb (length ds) after
          then WatchStart.beyond_latest
          else if not (after == 0) && ltb after (length ds - size)
          then WatchStart.too_old
          else if after == 0
          then WatchStart.snapshot (length ds)
          else resume after)
  unfolding watch_start
  watch_start-after_all size after ds =
      ground (arith, seq-after_all size ds, oldest-after_all size ds)

  -- What a `Watch` asks for: the events behind a number that are of its workspace, if it names one, or
  -- of no workspace; and the test for it.
  abbrev pub IsAwaited : ℕ → Text → Event B → Type 0
  IsAwaited after id ev =
      (after < ev.seq) × ((id ≡ []) ⊎ ((ev.workspace_id ≡ id) ⊎ (ev.workspace_id ≡ [])))

  pub awaited : ℕ → Text → Event B → Bool
  awaited after id ev =
      leb (after + 1) ev.seq
      && (if same id []
          then true
          else if same ev.workspace_id []
          then true
          else same ev.workspace_id id)

  pub all_of : List (List (Text × B)) → List (Text × B)
  all_of [] = []
  all_of (ds ∷ rounds) = ds ++ all_of rounds

  -- Between two calls of `since` no more is published than the buffer holds; before the first one,
  -- together with the events that were not sent when it started.
  abbrev pub KeepsUp : ℕ → ℕ → List (List (Text × B)) → Type 0
  KeepsUp size behind [] = Unit
  KeepsUp size behind (ds ∷ rounds) = (behind + length ds ≤ size) × KeepsUp size 0 rounds

  pair : List (Event B) → ℕ → List (Event B) × ℕ
  pair es n = (es, n)
