-- ===== src/Utils/Fdevent/Process.antt =====
-- fdevent_process in utils/fdevent.c.
use frotznet.Prelude.{
  ℕ, zero, suc, ◌+◌, ◌-◌, ◌≡◌, ◌≢◌, ◌≤◌, ◌<◌, refl, sym, ap, ◌∙◌, subst, Bool, true, false, not,
  some, arith, ◌==◌, if◌then◌else◌, update, update_self, update_ne, Bool-cases, inl, inr,
}
use frotznet.Prelude.Int.{pos}
use frotznet.Utils.Fdevent.{Ptr, World, Events, Fde, with, nothing, same_events, plist_enqueue}
use frotznet.Utils.Fdevent.Loop.{Ready, events_at, signal, process_from, process, process_result}

abbrev pub is_ready : ℕ → Ready → Bool
is_ready i r = not (same_events (events_at i r) nothing)

-- The descriptors from `i` on that are ready, counted, and their fdevents signalled one after the other.
abbrev pub ready_count : ℕ → ℕ → Ready → ℕ
ready_count zero i r = 0
ready_count (suc left) i r =
    if is_ready i r then suc (ready_count left (i + 1) r) else ready_count left (i + 1) r

abbrev pub signal_all : ℕ → ℕ → Ready → World → World
signal_all zero i r w = w
signal_all (suc left) i r w =
    signal_all left (i + 1) r (if is_ready i r then signal (w.table i) (events_at i r) w else w)

quiet_step :
    (left i : ℕ) (r : Ready) (w : World)
    → is_ready i r ≡ false
    → (ready_count (suc left) i r ≡ ready_count left (i + 1) r)
      × (signal_all (suc left) i r w ≡ signal_all left (i + 1) r w)
quiet_step left i r w e =
    (rw (ready_count, e, if◌then◌else◌) refl, rw (signal_all, e, if◌then◌else◌) refl)

ready_step :
    (left i : ℕ) (r : Ready) (w : World)
    → is_ready i r ≡ true
    → (ready_count (suc left) i r ≡ suc (ready_count left (i + 1) r))
      × (signal_all (suc left) i r w
          ≡ signal_all left (i + 1) r (signal (w.table i) (events_at i r) w))
ready_step left i r w e =
    (rw (ready_count, e, if◌then◌else◌) refl, rw (signal_all, e, if◌then◌else◌) refl)

none_left :
    (left i : ℕ) (r : Ready) (w : World) → ready_count left i r ≡ 0 → signal_all left i r w ≡ w
none_left zero i r w h = refl
none_left (suc left) i r w h = elim (Bool-cases (is_ready i r)) [
  | inl ready ↦ absurd (let s = ready_step left i r w ready in omega (arith, s.0, h))
  | inr quiet ↦
      let s = quiet_step left i r w quiet in s.1 ∙ none_left left (i + 1) r w (sym s.0 ∙ h)
]

signal-table :
    (i : ℕ) (r : Ready) (w : World)
    → ((j : ℕ) → is_ready j r ≡ true → w.table j ≢ 0)
    → (j : ℕ) → is_ready j r ≡ true
    → (signal (w.table i) (events_at i r) w).table j ≢ 0
unfolding plist_enqueue
signal-table i r w h j e = elim (Bool-cases (w.fdes (w.table i)).pending) [
  | inl busy ↦ rw (signal, busy, if◌then◌else◌) (h j e)
  | inr idle ↦ rw (signal, idle, if◌then◌else◌) (h j e)
]

process_from-signal_all :
    (left i n : ℕ) (r : Ready) (w : World)
    → ready_count left i r ≤ n
    → ((j : ℕ) → is_ready j r ≡ true → w.table j ≢ 0)
    → process_from left i n r w ≡ some (signal_all left i r w)
unfolding process_from
process_from-signal_all zero i n r w e h = refl
process_from-signal_all (suc left) i n r w e h = elim (Bool-cases (n == 0)) [
  | inl stop ↦
      let z : n ≡ 0 = ground arith in
      rw (process_from, stop) (ap some (sym (none_left (suc left) i r w (omega (arith, e, z)))))
  | inr go ↦ elim (Bool-cases (same_events (events_at i r) nothing)) [
    | inl quiet ↦
        let s = quiet_step left i r w (ap not quiet) in
        rw (process_from, go, quiet)
          (process_from-signal_all left (i + 1) n r w (omega (arith, e, s.0)) h)
    | inr busy ↦
        let s = ready_step left i r w (ap not busy) in
        let there : (w.table i == 0) ≡ false = (let t = h i (ap not busy) in ground arith) in
        rw (process_from, go, busy, there)
          (process_from-signal_all left (i + 1) (n - 1) r (signal (w.table i) (events_at i r) w)
            (omega (arith, e, s.0)) (signal-table i r w h))
  ]
]

-- What select returns: the bits that are set in the three sets.
abbrev pub one_if : Bool → ℕ
one_if true = 1
one_if false = 0

abbrev pub bit_count : ℕ → ℕ → Ready → ℕ
bit_count zero i r = 0
bit_count (suc left) i r =
    one_if (r.readable i) + one_if (r.writable i) + one_if (r.failed i) + bit_count left (i + 1) r

ready-le-bits : (left i : ℕ) (r : Ready) → ready_count left i r ≤ bit_count left i r
ready-le-bits zero i r = omega arith
ready-le-bits (suc left) i r =
    some_bit (r.readable i) (r.writable i) (r.failed i) (ready_count left (i + 1) r)
      (bit_count left (i + 1) r) (ready-le-bits left (i + 1) r)
  where
    some_bit :
        (a b c : Bool) (m n : ℕ)
        → m ≤ n
        → (if not
              (same_events (record { read = a; write = b; error = c; dont_close = false }) nothing)
            then suc m
            else m)
          ≤ one_if a + one_if b + one_if c + n
    some_bit true true true m n h = omega arith
    some_bit true true false m n h = omega arith
    some_bit true false true m n h = omega arith
    some_bit true false false m n h = omega arith
    some_bit false true true m n h = omega arith
    some_bit false true false m n h = omega arith
    some_bit false false true m n h = omega arith
    some_bit false false false m n h = omega arith

-- An fdevent that is signalled waits for its callback, with the events that are reported for it and those
-- that it had.
abbrev pub Signalled : Events → Fde → Fde → Type 0
Signalled e x y = (y.pending ≡ true) × (y.events ≡ with x.events e)

signal_lem :
    (f : Ptr) (e : Events) (w : World)
    → ((g : Ptr) → f ≢ g → (signal f e w).fdes g ≡ w.fdes g)
      × ((signal f e w).table ≡ w.table)
      × Signalled e (w.fdes f) ((signal f e w).fdes f)
unfolding plist_enqueue
signal_lem f e w =
    let x = record (w.fdes f) { events = with (w.fdes f).events e; pending = true } in
    let here = update_self w.fdes f x in
    let mark : Signalled e (w.fdes f) (update w.fdes f x f) =
      (ap (λ (y : Fde). y.pending) here, ap (λ (y : Fde). y.events) here) in
    elim (Bool-cases (w.fdes f).pending) [
      | inl busy ↦ rw (signal, busy, if◌then◌else◌) (λ g ne. update_ne w.fdes f x g ne, refl, mark)
      | inr idle ↦ rw (signal, idle, if◌then◌else◌) (λ g ne. update_ne w.fdes f x g ne, refl, mark)
    ]

-- An fdevent of no descriptor that is ready is not touched.
signal_all-fdes :
    (left i : ℕ) (r : Ready) (w : World) (f : Ptr)
    → ((j : ℕ) → i ≤ j → is_ready j r ≡ true → w.table j ≢ f)
    → (signal_all left i r w).fdes f ≡ w.fdes f
signal_all-fdes zero i r w f h = refl
signal_all-fdes (suc left) i r w f h = elim (Bool-cases (is_ready i r)) [
  | inr quiet ↦
      let s = quiet_step left i r w quiet in
      ap (λ (v : World). v.fdes f) s.1
      ∙ signal_all-fdes left (i + 1) r w f (λ j le. h j (omega arith))
  | inl ready ↦
      let s = ready_step left i r w ready in
      let one = signal_lem (w.table i) (events_at i r) w in
      ap (λ (v : World). v.fdes f) s.1
      ∙ signal_all-fdes left (i + 1) r (signal (w.table i) (events_at i r) w) f
          (λ j le e. rw one.1 (h j (omega arith) e))
      ∙ one.0 f (h i (omega arith) ready)
]

-- Two ready descriptors have different fdevents.
abbrev pub Separate : Ready → World → Type 0
Separate r w = (i j : ℕ) → i ≢ j → is_ready i r ≡ true → is_ready j r ≡ true → w.table i ≢ w.table j

signal_all-Signalled :
    (left i : ℕ) (r : Ready) (w : World) (j : ℕ)
    → Separate r w
    → i ≤ j
    → j < i + left
    → is_ready j r ≡ true
    → Signalled (events_at j r) (w.fdes (w.table j)) ((signal_all left i r w).fdes (w.table j))
signal_all-Signalled zero i r w j sep le lt h = absurd (omega arith)
signal_all-Signalled (suc left) i r w j sep le lt h = elim (Bool-cases (is_ready i r)) [
  | inr quiet ↦
      let s = quiet_step left i r w quiet in
      let ne : i ≢ j = λ e. (let q : is_ready j r ≡ false = rw e at quiet in cc) in
      subst (λ (v : World). Signalled (events_at j r) (w.fdes (w.table j)) (v.fdes (w.table j)))
        (sym s.1) (signal_all-Signalled left (i + 1) r w j sep (omega arith) (omega arith) h)
  | inl ready ↦
      let s = ready_step left i r w ready in
      let one = signal_lem (w.table i) (events_at i r) w in
      let v = signal (w.table i) (events_at i r) w in
      let same_table : (k : ℕ) → v.table k ≡ w.table k = λ k. ap (λ (t : ℕ → Ptr). t k) one.1 in
      subst (λ (u : World). Signalled (events_at j r) (w.fdes (w.table j)) (u.fdes (w.table j)))
        (sym s.1)
        (elim (Bool-cases (i == j)) [
          | inl at ↦
              let e : i ≡ j = ground arith in
              let rest =
                signal_all-fdes left (i + 1) r v (w.table i)
                  (λ k le' hk. rw (same_table k) (λ t. sep i k (omega arith) ready hk (sym t))) in
              subst
                (λ (k : ℕ).
                  Signalled (events_at k r) (w.fdes (w.table k))
                    ((signal_all left (i + 1) r v).fdes (w.table k)))
                e
                (subst (λ (y : Fde). Signalled (events_at i r) (w.fdes (w.table i)) y) (sym rest)
                  one.2)
          | inr later ↦
              let ne : i ≢ j = ground arith in
              let ih =
                signal_all-Signalled left (i + 1) r v j
                  (λ a b n ha hb. rw (same_table a, same_table b) (sep a b n ha hb)) (omega arith)
                  (omega arith) h in
              let kept = one.0 (w.table j) (sep i j ne ready h) in rw (same_table j, kept) at ih
        ])
]

-- fdevent_process, built with select, when select reports how many bits are set for the descriptors below
-- select_n, each of the ready descriptors has an fdevent and no two of them have the same: it ends with the
-- state in which the fdevents of all the ready ones are signalled in the order of their descriptors, so
-- that its count of the ready ones never ends the loop before the last of them. Each fdevent of a ready
-- descriptor below select_n is then pending, with the events that were reported and those that it had, and
-- each that is no ready descriptor's is as before.
pub process-signal_all :
    (r : Ready) (w : World)
    → r.result ≡ pos (bit_count w.select_n 0 r)
    → ((j : ℕ) → is_ready j r ≡ true → w.table j ≢ 0)
    → Separate r w
    → (process r w ≡ some (signal_all w.select_n 0 r w))
      × ((j : ℕ)
          → j < w.select_n
          → is_ready j r ≡ true
          → Signalled
              (events_at j r)
              (w.fdes (w.table j))
              ((signal_all w.select_n 0 r w).fdes (w.table j)))
      × ((f : Ptr)
          → ((j : ℕ) → is_ready j r ≡ true → w.table j ≢ f)
          → (signal_all w.select_n 0 r w).fdes f ≡ w.fdes f)
unfolding process
process-signal_all r w e h sep = (
  subst (λ n. process_result n r w ≡ some (signal_all w.select_n 0 r w)) (sym e)
      (process_from-signal_all w.select_n 0 (bit_count w.select_n 0 r) r w
        (ready-le-bits w.select_n 0 r) h),
  λ j lt ready. signal_all-Signalled w.select_n 0 r w j sep (omega arith) (omega arith) ready,
  λ f none_here. signal_all-fdes w.select_n 0 r w f (λ j le. none_here j),
)
