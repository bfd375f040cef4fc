-- ===== src/Privileged/Tail/Exact.antt =====
-- What `tailBuffer` (internal/privileged/privileged.go) keeps and reports, against all that was
-- written to it.
use mathlib.Core.List.{append-nil, append_assoc}
use masuda.Common.{
  ℕ, ◌+◌, ◌-◌, ◌*◌, ◌≤◌, ◌<◌, ◌≡◌, refl, sym, ap, ◌∙◌, ◌⊎◌, inl, inr, ◌↔◌, List, [], ◌∷◌, ◌++◌,
  Bool, true, false, ltb, length, drop, take_last, arith, All, Bool-cases, length-append,
  length-drop, drop-append, drop-drop,
}
use masuda.Privileged.Tail.{Bytes, TailBuffer, new_buffer, settle, write, bytes, write_all, concat}

-- `buf` is a tail of all that was written, and a cut left at least `max` bytes.
record IsTail (max cut : ℕ) (buf all : Bytes) : Type 0 where
  tail : buf ≡ drop cut all
  enough : (cut ≡ 0) ⊎ (max ≤ length buf)
  within : cut ≤ length all

length-tail :
    {max cut : ℕ} {buf all : Bytes} → IsTail max cut buf all → length buf + cut ≡ length all
length-tail {cut} {all} k = omega (arith, ap length k.tail, length-drop cut all, k.within)

IsTail-append :
    {max cut : ℕ} {buf all : Bytes} (p : Bytes)
    → IsTail max cut buf all
    → IsTail max cut (buf ++ p) (all ++ p)
IsTail-append {cut} {buf} {all} p k = record {
  tail = ap (λ b. b ++ p) k.tail ∙ sym (drop-append cut all p k.within);
  enough = omega (arith, length-append buf p, k.enough);
  within = omega (arith, length-append all p, k.within);
}

IsTail-cut :
    {max cut : ℕ} {buf all : Bytes}
    → max ≤ length buf
    → IsTail max cut buf all
    → IsTail max (cut + (length buf - max)) (take_last max buf) all
IsTail-cut {max} {cut} {buf} {all} h k = record {
  tail = ap (drop (length buf - max)) k.tail ∙ drop-drop (length buf - max) cut all;
  enough = inr (omega (arith, length-drop (length buf - max) buf));
  within = omega (arith, length-tail k);
}

record Keeps (t : TailBuffer) (all : Bytes) : Type 0 where
  cut : ℕ
  is_tail : IsTail t.max cut t.buf all
  flag : t.truncated ≡ true → t.max < length all

settle-Keeps :
    {max cut : ℕ} {buf all : Bytes} (truncated : Bool)
    → IsTail max cut buf all
    → (truncated ≡ true → max < length all)
    → Keeps (settle max buf truncated) all
unfolding settle
settle-Keeps {cut} truncated k f = record {
  cut = cut;
  is_tail = k;
  flag = ground (arith, length-tail k);
}

write-Keeps : (t : TailBuffer) (all p : Bytes) → Keeps t all → Keeps (write t p) (all ++ p)
unfolding write
write-Keeps t all p k = elim (Bool-cases (ltb (2 * t.max) (length (t.buf ++ p)))) [
  | inl over ↦ rw over (settle-Keeps t.truncated (IsTail-cut (ground arith) longer) kept)
  | inr fits ↦ rw fits (settle-Keeps t.truncated longer kept)
]
  where
    longer : IsTail t.max k.cut (t.buf ++ p) (all ++ p)
    longer = IsTail-append p k.is_tail

    kept : t.truncated ≡ true → t.max < length (all ++ p)
    kept e = omega (arith, k.flag e, length-append all p)

write_all-Keeps :
    (t : TailBuffer) (all : Bytes) (ps : List Bytes)
    → Keeps t all
    → Keeps (write_all t ps) (all ++ concat ps)
unfolding write_all concat
write_all-Keeps t all [] k = rw append-nil k
write_all-Keeps t all (p ∷ ps) k =
    rw (← append_assoc all p (concat ps))
      (write_all-Keeps (write t p) (all ++ p) ps (write-Keeps t all p k))

new_buffer-Keeps : (max : ℕ) → Keeps (new_buffer max) []
unfolding new_buffer
new_buffer-Keeps max = record {
  cut = 0;
  is_tail = record { tail = refl; enough = inl refl; within = omega arith };
  flag = λ e. cc;
}

bytes-take_last : (t : TailBuffer) → bytes t ≡ take_last t.max t.buf
unfolding bytes
bytes-take_last t = elim (Bool-cases (ltb t.max (length t.buf))) [
  | inl over ↦ rw over
  | inr fits ↦ let e : 0 ≡ length t.buf - t.max = ground arith in rw fits (ap (λ n. drop n t.buf) e)
]

Keeps-bytes : (t : TailBuffer) (all : Bytes) → Keeps t all → bytes t ≡ take_last t.max all
Keeps-bytes t all k =
    bytes-take_last t
    ∙ ap (drop (length t.buf - t.max)) k.is_tail.tail
    ∙ drop-drop (length t.buf - t.max) k.cut all
    ∙ ap (λ n. drop n all) same_end
  where
    same_end : k.cut + (length t.buf - t.max) ≡ length all - t.max
    same_end = omega (arith, length-tail k.is_tail)

max-write : (t : TailBuffer) (p : Bytes) → (write t p).max ≡ t.max
unfolding write settle
max-write t p = ground arith

max-write_all : (t : TailBuffer) (ps : List Bytes) → (write_all t ps).max ≡ t.max
unfolding write_all
max-write_all t [] = refl
max-write_all t (p ∷ ps) = max-write_all (write t p) ps ∙ max-write t p

abbrev logged : ℕ → List Bytes → TailBuffer
logged max ps = write_all (new_buffer max) ps

max-logged : (max : ℕ) (ps : List Bytes) → (logged max ps).max ≡ max
unfolding new_buffer
max-logged max ps = max-write_all (new_buffer max) ps

logged-Keeps : (max : ℕ) (ps : List Bytes) → Keeps (logged max ps) (concat ps)
logged-Keeps max ps = write_all-Keeps (new_buffer max) [] ps (new_buffer-Keeps max)

-- However the output is cut into chunks, `bytes` returns exactly the last `max` bytes of all that
-- was written, or all of it where it is no longer than `max`.
pub bytes-write_all :
    (max : ℕ) (ps : List Bytes) → bytes (write_all (new_buffer max) ps) ≡ take_last max (concat ps)
bytes-write_all max ps =
    Keeps-bytes (logged max ps) (concat ps) (logged-Keeps max ps)
    ∙ ap (λ m. take_last m (concat ps)) (max-logged max ps)

-- Where no chunk is longer than `max`, nothing is cut before the flag is set.
record Whole (t : TailBuffer) (all : Bytes) : Type 0 where
  kept_all : t.truncated ≡ false → t.buf ≡ all
  short : t.truncated ≡ false → length t.buf ≤ t.max

write-Whole :
    (t : TailBuffer) (all p : Bytes) → length p ≤ t.max → Whole t all → Whole (write t p) (all ++ p)
unfolding write settle
write-Whole t all p h w = record {
  kept_all = ground (arith, length-append t.buf p);
  short = ground (arith, length-append t.buf p);
}

write_all-Whole :
    (t : TailBuffer) (all : Bytes) (ps : List Bytes)
    → All (λ p. length p ≤ t.max) ps
    → Whole t all
    → Whole (write_all t ps) (all ++ concat ps)
unfolding write_all concat
write_all-Whole t all [] h w = rw append-nil w
write_all-Whole t all (p ∷ ps) h w =
    rw (← append_assoc all p (concat ps))
      (write_all-Whole (write t p) (all ++ p) ps (rw max-write h.1) (write-Whole t all p h.0 w))

new_buffer-Whole : (max : ℕ) → Whole (new_buffer max) []
unfolding new_buffer
new_buffer-Whole max = record { kept_all = λ e. refl; short = λ e. omega arith }

-- Where no chunk is longer than `max`, the flag `truncated` is set exactly when more than `max`
-- bytes were written.
truncated_iff :
    (max : ℕ) (ps : List Bytes)
    → All (λ p. length p ≤ max) ps
    → ((write_all (new_buffer max) ps).truncated ≡ true) ↔ (max < length (concat ps))
unfolding new_buffer
truncated_iff max ps h = (
  λ e. omega (arith, (logged-Keeps max ps).flag e, max-logged max ps),
  λ more. elim (Bool-cases t.truncated) [
    | inl e ↦ e
    | inr e ↦ absurd (omega (arith, ap length (whole.kept_all e), whole.short e, max-logged max ps))
  ],
)
  where
    t : TailBuffer
    t = logged max ps

    whole : Whole t (concat ps)
    whole = write_all-Whole (new_buffer max) [] ps h (new_buffer-Whole max)

-- A single chunk that takes an untruncated buffer past twice the limit is cut to the limit, and the
-- flag stays unset although bytes were dropped.
pub write_forgets_truncation :
    (t : TailBuffer) (p : Bytes)
    → t.truncated ≡ false
    → 2 * t.max < length (t.buf ++ p)
    → ((write t p).truncated ≡ false) × (length (bytes (write t p)) < length (t.buf ++ p))
unfolding write settle bytes
write_forgets_truncation t p e h =
    ground (arith, length-drop (length (t.buf ++ p) - t.max) (t.buf ++ p))
