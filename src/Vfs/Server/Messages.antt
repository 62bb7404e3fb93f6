-- ===== src/Vfs/Server/Messages.antt =====
-- The messages that carry the data of a read, in srv/vfs/vfs.c.
use frotznet.Prelude.{
  ℕ, zero, suc, ◌+◌, ◌*◌, ◌/◌, ◌≤◌, ◌<◌, ◌≡◌, List, [], ◌∷◌, ◌++◌, arith, ltb, length, length-take,
  length-drop, take-append-drop, drop, Bool-cases, inl, inr, append-nil,
}
use frotznet.Vfs.Server.Main.{pages, messages}

abbrev pub concat : List (List ℕ) → List ℕ
concat [] = []
concat (m ∷ ms) = m ++ concat ms

-- Each message is a page at most.
abbrev pub AllFit : List (List ℕ) → Type 0
AllFit [] = Unit {0}
AllFit (m ∷ ms) = (length m ≤ 0x1000) × AllFit ms

concat-pages : (n : ℕ) (bytes : List ℕ) → concat (pages n bytes) ≡ bytes
unfolding pages
concat-pages zero bytes = append-nil bytes
concat-pages (suc n) bytes = elim (Bool-cases (ltb 0x1000 (length bytes))) [
  | inl more ↦ rw (more, concat-pages n (drop 0x1000 bytes)) (take-append-drop 0x1000 bytes)
  | inr last ↦ rw last (append-nil bytes)
]

pages-AllFit : (n : ℕ) (bytes : List ℕ) → length bytes < (n + 1) * 0x1000 → AllFit (pages n bytes)
unfolding pages
pages-AllFit zero bytes h = (omega arith, tt)
pages-AllFit (suc n) bytes h = elim (Bool-cases (ltb 0x1000 (length bytes))) [
  | inl more ↦ rw more (
    omega (arith, length-take {0} 0x1000 bytes),
    pages-AllFit n (drop 0x1000 bytes) (omega (arith, length-drop {0} 0x1000 bytes)),
  )
  | inr last ↦ rw last (ground arith, tt)
]

-- The data of a read is sent in messages of a page at most, which are the data when they are put together.
concat-messages : (bytes : List ℕ) → (concat (messages bytes) ≡ bytes) × AllFit (messages bytes)
unfolding messages
concat-messages bytes = elim (Bool-cases (ltb (length bytes) 0x1000)) [
  | inl short ↦ rw short (append-nil bytes, (ground arith, tt))
  | inr long ↦ rw long (
    concat-pages (length bytes / 0x1000) bytes,
    pages-AllFit (length bytes / 0x1000) bytes (omega arith),
  )
]
