-- ===== src/Netboot/Prompt/Safe.antt =====
-- The console of netboot.c stays within its buffers.
use frotznet.Prelude.{
  ℕ, zero, suc, ◌+◌, ◌-◌, ◌≤◌, ◌<◌, ◌≡◌, refl, sym, ap, ◌∙◌, subst, Bool, true, false, ◌&&◌, ◌||◌,
  Option, none, some, List, [], ◌∷◌, arith, ◌==◌, ltb, leb, if◌then◌else◌, length, get_elem?,
  update, update_self, update_ne, Bool-cases, inl, inr,
}
use frotznet.Netboot.Prompt.{
  Prompt, parse, skip, esc, bs, cr, put, string_at, blank, show_line, cleared, newline, Asked, go,
  boots, sets, asked, Pressed, stays, leaves, stay, command, enter, shown, moved, shown_again,
  keypress, scan_table, shift_table, press, scan, then_run, run_codes, console,
}

-- Between calls of keypress.
pub record IsLine (p : Prompt) : Type 0 where
  pub after_heading : 9 ≤ p.lp
  pub before_end : p.lp ≤ 79
  pub ends : p.linebuf 79 ≡ 0
  pub fits : length p.param < 80

string_at-some :
    (left : ℕ) (buf : ℕ → ℕ) (i k : ℕ)
    → k < left
    → buf (i + k) ≡ 0
    → (cs : List ℕ) × (string_at left buf i ≡ some cs) × (length cs ≤ k)
unfolding string_at
string_at-some zero buf i k lt e = absurd (omega arith)
string_at-some (suc left) buf i k lt e = elim (Bool-cases (buf i == 0)) [
  | inl z ↦ ([], rw (string_at, z) refl, omega arith)
  | inr nz ↦
      let positive : 0 < k = elim (Bool-cases (k == 0)) [
        | inl k0 ↦
            let same : i + k ≡ i = ground arith in
            let here : buf i ≡ 0 = ap buf (sym same) ∙ e in absurd (ground arith)
        | inr k1 ↦ ground arith
      ] in
      let at : i + 1 + (k - 1) ≡ i + k = omega arith in
      let r = string_at-some left buf (i + 1) (k - 1) (omega arith) (ap buf at ∙ e) in
      (buf i ∷ r.0, rw (string_at, nz, r.1) refl, omega (arith, r.2))
]

-- A call that does not fault, and keeps the line if it goes on.
abbrev Safe : Option Pressed → Type 0
Safe none = ⊥
Safe (some (leaves p)) = length p.param < 80
Safe (some (stays p)) = IsLine p

show_line_lem : (p : Prompt) → p.linebuf 79 ≡ 0 → show_line p ≡ some p
show_line_lem p e =
    let r = string_at-some 80 p.linebuf 0 79 (omega arith) e in rw (show_line, r.1) refl

shown-Safe : (p : Prompt) → IsLine p → Safe (stay (show_line p))
shown-Safe p h = subst (λ o. Safe (stay o)) (sym (show_line_lem p h.ends)) h

cleared-IsLine : (p : Prompt) → length p.param < 80 → IsLine (cleared p)
cleared-IsLine p fits = record {
  after_heading = omega arith;
  before_end = omega arith;
  ends = refl;
  fits = fits;
}

newline-Safe : (p : Prompt) → length p.param < 80 → Safe (stay (newline p))
newline-Safe p fits = shown-Safe (cleared p) (cleared-IsLine p fits)

-- The boot parameters are shorter than the command.
abbrev IsShort : ℕ → Asked → Type 0
IsShort n go = Unit {0}
IsShort n (boots value) = length value < n
IsShort n (sets cmd) = Unit {0}

asked-IsShort : (n : ℕ) (cmd : List ℕ) → length cmd < n → IsShort n (asked cmd)
asked-IsShort n [] lt = tt
asked-IsShort n (a ∷ []) lt = tt
asked-IsShort n (a ∷ b ∷ []) lt = elim (Bool-cases ((a == b'g') && (b == b'o'))) [
  | inl e ↦ rw e tt
  | inr e ↦ rw e tt
]
asked-IsShort n (a ∷ b ∷ c ∷ []) lt = tt
asked-IsShort n (a ∷ b ∷ c ∷ d ∷ []) lt =
    elim (Bool-cases (((a == b'b') && (b == b'o')) && ((c == b'o') && (d == b't')))) [
      | inl e ↦ rw e tt
      | inr e ↦ rw e tt
    ]
asked-IsShort n (a ∷ b ∷ c ∷ d ∷ f ∷ rest) lt =
    elim (Bool-cases (((a == b'b') && (b == b'o')) && ((c == b'o') && (d == b't')))) [
      | inl e ↦
          rw e (elim (Bool-cases (f == b'=')) [ inl g ↦ rw g (omega arith) | inr g ↦ rw g tt ])
      | inr e ↦ rw e tt
    ]

command-Safe : (a : Asked) (p : Prompt) → IsShort 80 a → length p.param < 80 → Safe (command a p)
command-Safe go p short fits = fits
command-Safe (boots value) p short fits =
    let small : ltb (length value) 80 ≡ true = ground arith in
    rw small (newline-Safe (record p { param = value }) short)
command-Safe (sets cmd) p short fits = newline-Safe (record p { ip = parse cmd skip p.ip }) fits

again-Safe : (o : Option Pressed) → Safe o → Safe (shown_again o)
again-Safe none h = h
again-Safe (some (leaves p)) h = h
again-Safe (some (stays p)) h = shown-Safe p h

enter-Safe : (p : Prompt) → IsLine p → Safe (enter (put p.lp 0 p))
enter-Safe p h =
    let small : ltb p.lp 80 ≡ true = ground (arith, h.before_end) in
    let buf = update p.linebuf p.lp 0 in
    let at : 9 + (p.lp - 9) ≡ p.lp = omega (arith, h.after_heading) in
    let r =
      string_at-some 71 buf 9 (p.lp - 9) (omega (arith, h.before_end))
        (ap buf at ∙ update_self p.linebuf p.lp 0) in
    rw (small, r.1)
      (command-Safe (asked r.0) _ (asked-IsShort 80 r.0 (omega (arith, r.2, h.before_end))) h.fits)

-- A write before the end of the line.
put-IsLine :
    (p : Prompt) (i c lp : ℕ)
    → IsLine p
    → i < 79
    → 9 ≤ lp
    → lp ≤ 79
    → Safe (shown (moved lp (put i c p)))
put-IsLine p i c lp h lt low high =
    let small : ltb i 80 ≡ true = ground arith in
    rw small (
      shown-Safe _ (record {
        after_heading = low;
        before_end = high;
        ends = update_ne p.linebuf i c 79 (λ e. absurd (omega arith)) ∙ h.ends;
        fits = h.fits;
      }))

keypress-Safe : (key : ℕ) (p : Prompt) → IsLine p → Safe (keypress key p)
unfolding keypress
keypress-Safe key p h = elim (Bool-cases (key == esc)) [
  | inl e ↦ rw e (
      shown-Safe (blank p) (record {
        after_heading = omega arith;
        before_end = omega arith;
        ends = h.ends;
        fits = h.fits;
      }))
  | inr e ↦ rw e (elim (Bool-cases (key == cr)) [
    | inl f ↦ rw f (again-Safe _ (enter-Safe p h))
    | inr f ↦ rw f (elim (Bool-cases (key == bs)) [
      | inl g ↦ rw g (elim (Bool-cases (ltb 9 p.lp)) [
        | inl some_left ↦ rw some_left (
            put-IsLine p (p.lp - 1) b' ' (p.lp - 1) h (ground (arith, h.before_end)) (ground arith)
              (omega (arith, h.before_end)))
        | inr start ↦ rw start (shown-Safe p h)
      ])
      | inr g ↦ rw g (elim (Bool-cases (ltb p.lp 79)) [
        | inl room ↦ rw room (
            put-IsLine p p.lp key (p.lp + 1) h (ground arith) (omega (arith, h.after_heading))
              (ground arith))
        | inr full ↦ rw full (shown-Safe p h)
      ])
    ])
  ])
]

get_elem?-lt : (xs : List ℕ) (i : ℕ) → i < length xs → (x : ℕ) × (get_elem? xs i ≡ some x)
get_elem?-lt [] i lt = absurd (omega arith)
get_elem?-lt (x ∷ xs) zero lt = (x, refl)
get_elem?-lt (x ∷ xs) (suc i) lt = get_elem?-lt xs i (omega arith)

press-Safe :
    (table : List ℕ) (code : ℕ) (p : Prompt)
    → code < length table
    → IsLine p
    → Safe (press (get_elem? table code) p)
press-Safe table code p lt h =
    let r = get_elem?-lt table code lt in
    subst (λ o. Safe (press o p)) (sym r.1) (keypress-Safe r.0 p h)

shift-IsLine : (p : Prompt) (shift : Bool) → IsLine p → IsLine (record p { shift = shift })
shift-IsLine p shift h = record {
  after_heading = h.after_heading;
  before_end = h.before_end;
  ends = h.ends;
  fits = h.fits;
}

-- The table that a shift key chooses has each code below 59.
press_shifted :
    (shift : Bool) (code : ℕ) (p : Prompt)
    → code < 59
    → IsLine p
    → Safe (press (get_elem? (if shift then shift_table else scan_table) code) p)
press_shifted true code p lt h = press-Safe shift_table code p lt h
press_shifted false code p lt h = press-Safe scan_table code p lt h

scan-Safe : (code : ℕ) (p : Prompt) → IsLine p → Safe (scan code p)
unfolding scan
scan-Safe code p h = elim (Bool-cases ((code == 42) || (code == 54))) [
  | inl e ↦ rw e (shift-IsLine p true h)
  | inr e ↦ rw e (elim (Bool-cases ((code == 170) || (code == 182))) [
    | inl f ↦ rw f (shift-IsLine p false h)
    | inr f ↦ rw f (elim (Bool-cases (leb 128 code || leb 59 code)) [
      | inl g ↦ rw g h
      | inr g ↦ rw g (press_shifted p.shift code p (ground arith) h)
    ])
  ])
]

abbrev Ends : Option Prompt → Type 0
Ends o = (q : Prompt) × (o ≡ some q) × (length q.param < 80)

then_run-Ends :
    (rest : Prompt → Option Prompt) (o : Option Pressed)
    → Safe o
    → ((p : Prompt) → IsLine p → Ends (rest p))
    → Ends (then_run rest o)
then_run-Ends rest none s h = absurd s
then_run-Ends rest (some (leaves p)) s h = (p, refl, s)
then_run-Ends rest (some (stays p)) s h = h p s

run_codes-Ends : (codes : List ℕ) (p : Prompt) → IsLine p → Ends (run_codes codes p)
unfolding run_codes
run_codes-Ends [] p h = (p, refl, h.fits)
run_codes-Ends (code ∷ codes) p h =
    then_run-Ends (run_codes codes) (scan code p) (scan-Safe code p h) (run_codes-Ends codes)

-- Whatever codes come from the keyboard, the console never reads or writes outside of its line or of the
-- boot parameters, which stay shorter than their buffer, if they were so at first.
pub console-stays_within :
    (codes : List ℕ) (p : Prompt)
    → length p.param < 80
    → (q : Prompt) × (console codes p ≡ some q) × (length q.param < 80)
unfolding console
console-stays_within codes p fits =
    then_run-Ends (run_codes codes) (stay (newline (record p { shift = false })))
      (newline-Safe (record p { shift = false }) fits) (run_codes-Ends codes)
