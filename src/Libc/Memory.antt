-- ===== src/Libc/Memory.antt =====
-- memset, memcpy and memmove of lib/libc/string.c on a block of cells. An access outside of the block
-- is a fault, `none`. A cell is a byte there; the console moves cells of two bytes by the same loops.
pub mod Laws
use frotznet.Prelude.{
  ℕ, zero, suc, ◌+◌, Option, none, some, List, ltb, if◌then◌else◌, get_elem?, set, length,
}

module _ {ℓ} {A : Type ℓ} where
  infixl 5 ◌>>=◌
  abbrev pub ◌>>=◌ {κ} : {B : Type κ} → Option B → (B → Option (List A)) → Option (List A)
  none >>= f = none
  some x >>= f = f x

  abbrev pub put : List A → ℕ → A → Option (List A)
  put m i v = if ltb i (length m) then some (set m i v) else none

  -- while(n) { *u = c; u++; n--; }
  unfoldable pub memset : ℕ → A → ℕ → List A → Option (List A)
  memset i c zero m = some m
  memset i c (suc n) m = put m i c >>= memset (suc i) c n

  -- The loop that copies upwards: that of memcpy, and of memmove to a lower address.
  unfoldable pub copy_up : ℕ → ℕ → ℕ → List A → Option (List A)
  copy_up zero d s m = some m
  copy_up (suc n) d s m = get_elem? m s >>= λ v. put m d v >>= copy_up n (suc d) (suc s)

  -- The loop that copies downwards from the ends.
  unfoldable pub copy_down : ℕ → ℕ → ℕ → List A → Option (List A)
  copy_down zero d s m = some m
  copy_down (suc n) d s m = get_elem? m (s + n) >>= λ v. put m (d + n) v >>= copy_down n d s

  unfoldable pub memcpy : ℕ → ℕ → ℕ → List A → Option (List A)
  unfolding copy_up
  memcpy d s n m = copy_up n d s m

  unfoldable pub memmove : ℕ → ℕ → ℕ → List A → Option (List A)
  unfolding copy_up copy_down
  memmove d s n m = if ltb d s then copy_up n d s m else copy_down n d s m
