-- ===== src/Vfs/Server/Reads.antt =====
-- Reads of a file of the boot directory through the requests of srv/vfs/vfs.c.
use frotznet.Prelude.{
  ℕ, zero, suc, ◌+◌, ◌-◌, ◌*◌, ◌≤◌, ◌<◌, ◌≡◌, refl, sym, ap, ◌∙◌, subst, true, Option, none, some,
  List, [], ◌∷◌, ◌++◌, arith, ◌==◌, ltb, leb, if◌then◌else◌, length, min, update, update_self,
  Bool-cases, inl, inr,
}
use frotznet.Vfs.Bootfs.{Entry, Inode, Boot, Vnode, is_file, inew, mount, walk, bytes_at}
use frotznet.Vfs.Bootfs
use frotznet.Vfs.Server.{Server, Ofile, Client, Cmd, Answer, vfs_ok, result}
use frotznet.Vfs.Server.Main.{vfs_read}
use frotznet.Vfs.Server.Requests
use frotznet.Vfs.Server.Boot.{BootCookie, bootfs_vnode_ops}

length-bytes_at : (image : ℕ → ℕ) (a n : ℕ) → length (bytes_at image a n) ≡ n
unfolding bytes_at
length-bytes_at image a zero = refl
length-bytes_at image a (suc n) = ap suc (length-bytes_at image (a + 1) n)

bytes_at-append :
    (image : ℕ → ℕ) (a m n : ℕ)
    → bytes_at image a m ++ bytes_at image (a + m) n ≡ bytes_at image a (m + n)
unfolding bytes_at
bytes_at-append image a zero n =
    let e : a + 0 ≡ a = omega arith in let f : 0 + n ≡ n = omega arith in rw (e, f) refl
bytes_at-append image a (suc m) n =
    let e : a + suc m ≡ a + 1 + m = omega arith in
    let f : suc m + n ≡ suc (m + n) = omega arith in
    rw (e, f, bytes_at-append image (a + 1) m n) refl

-- How many bytes bootfs_read gives.
abbrev available : Inode → ℕ → ℕ → ℕ
available i count pos = min count (i.i_size - pos)

read-bytes_at :
    (i : Inode) (count pos : ℕ) (b : Boot)
    → Bootfs.read i count pos b
      ≡ bytes_at b.d_bootdir (i.i_offset * 0x1000 + pos) (available i count pos)
unfolding Bootfs.read bytes_at
read-bytes_at i count pos b = elim (Bool-cases (leb i.i_size pos)) [
  | inl past ↦ let e : available i count pos ≡ 0 = ground arith in rw (past, e)
  | inr within ↦ elim (Bool-cases (leb count (i.i_size - pos))) [
    | inl fits ↦ let e : available i count pos ≡ count = ground arith in rw (within, fits, e)
    | inr over ↦
        let e : available i count pos ≡ i.i_size - pos = ground arith in rw (within, over, e)
  ]
]

-- VFS_READ of `count` bytes from a descriptor.
abbrev pub read_cmd : ℕ → ℕ → Cmd
read_cmd fd count = record { cmd = vfs_read; arg = λ k. if k == 0 then fd else count }

abbrev pub sum : List ℕ → ℕ
sum [] = 0
sum (n ∷ ns) = n + sum ns

abbrev pub prefixed : List ℕ → Option (List ℕ) → Option (List ℕ)
prefixed xs none = none
prefixed xs (some ys) = some (xs ++ ys)

abbrev pub sent_first : Option (List ℕ) → Option (List ℕ) → Option (List ℕ)
sent_first none rest = none
sent_first (some xs) rest = prefixed xs rest

-- The data of reads, one request after the other; `none` where one is not answered with data.
unfoldable pub read_all :
    Server Boot Vnode BootCookie → ℕ → List ℕ → Client Vnode BootCookie → Boot → Option (List ℕ)
read_all s fd [] c b = some []
read_all s fd (n ∷ ns) c b = elim (Requests.read s c (read_cmd fd n) b) [
  | none ↦ none
  | some a ↦ sent_first a.sent (read_all s fd ns a.client a.fs)
]

module _ (s : Server Boot Vnode BootCookie) (fd : ℕ) (i : Inode) (small : fd < 256) where
  -- The descriptor is that of the file, at a position that is not behind its end.
  pub record IsOpen (c : Client Vnode BootCookie) (pos : ℕ) : Type 0 where
    pub o : Ofile Vnode BootCookie
    pub entry : c.ofile fd ≡ some o
    pub inode : o.o_vnode.v_data ≡ some i
    pub at : o.o_pos ≡ pos
    pub ops : s.sb_vops (s.v_sb o.o_vnode) ≡ bootfs_vnode_ops

  advance : (c : Client Vnode BootCookie) (pos : ℕ) → IsOpen c pos → ℕ → Client Vnode BootCookie
  advance c pos h k = record c {
    ofile = update c.ofile fd (some (record h.o { o_pos = h.o.o_pos + k }));
  }

  advance-IsOpen :
      (c : Client Vnode BootCookie) (pos : ℕ) (h : IsOpen c pos) (k : ℕ)
      → IsOpen (advance c pos h k) (pos + k)
  unfolding advance
  advance-IsOpen c pos h k = record {
    o = record h.o { o_pos = h.o.o_pos + k };
    entry = update_self c.ofile fd _;
    inode = h.inode;
    at = ap (λ p. p + k) h.at;
    ops = h.ops;
  }

  read-IsOpen :
      (c : Client Vnode BootCookie) (pos : ℕ) (h : IsOpen c pos) (n : ℕ) (b : Boot)
      → let bytes = bytes_at b.d_bootdir (i.i_offset * 0x1000 + pos) (available i n pos) in
        Requests.read s c (read_cmd fd n) b
        ≡ some (record {
          res = result vfs_ok 0 (some (length bytes));
          client = advance c pos h (length bytes);
          fs = b;
          sent = some bytes;
          listed = [];
        })
  unfolding Requests.read advance
  read-IsOpen c pos h n b =
      let lt : ltb fd 256 ≡ true = ground arith in
      rw (lt, h.entry, h.ops, h.inode, h.at, read-bytes_at i n pos b) refl

  read_all-cons :
      (n : ℕ) (ns : List ℕ) (c : Client Vnode BootCookie) (b : Boot)
      (a : Answer Boot Vnode BootCookie)
      → Requests.read s c (read_cmd fd n) b ≡ some a
      → read_all s fd (n ∷ ns) c b ≡ sent_first a.sent (read_all s fd ns a.client a.fs)
  unfolding read_all
  read_all-cons n ns c b a e = rw (e, read_all) refl

  pub read_all-IsOpen :
      (ns : List ℕ) (c : Client Vnode BootCookie) (pos : ℕ) (b : Boot)
      → IsOpen c pos
      → pos ≤ i.i_size
      → read_all s fd ns c b
        ≡ some (bytes_at b.d_bootdir (i.i_offset * 0x1000 + pos) (min (sum ns) (i.i_size - pos)))
  unfolding read_all bytes_at
  read_all-IsOpen [] c pos b h le = let e : min 0 (i.i_size - pos) ≡ 0 = omega arith in rw e refl
  read_all-IsOpen (n ∷ ns) c pos b h le =
      let k = available i n pos in
      let base = i.i_offset * 0x1000 in
      let len = length-bytes_at b.d_bootdir (base + pos) k in
      let next = advance-IsOpen c pos h (length (bytes_at b.d_bootdir (base + pos) k)) in
      let moved =
        subst
          (λ m. IsOpen (advance c pos h (length (bytes_at b.d_bootdir (base + pos) k))) (pos + m))
          len next in
      let total : k + min (sum ns) (i.i_size - (pos + k)) ≡ min (n + sum ns) (i.i_size - pos) =
        omega arith in
      let place : base + pos + k ≡ base + (pos + k) = omega arith in
      read_all-cons n ns c b _ (read-IsOpen c pos h n b)
      ∙ ap (prefixed (bytes_at b.d_bootdir (base + pos) k))
          (read_all-IsOpen ns _ (pos + k) b moved (omega arith))
      ∙ (ap some (
          ap
            (λ a.
              bytes_at b.d_bootdir (base + pos) k
              ++ bytes_at b.d_bootdir a (min (sum ns) (i.i_size - (pos + k))))
            (sym place)
          ∙ bytes_at-append b.d_bootdir (base + pos) k _
          ∙ ap (bytes_at b.d_bootdir (base + pos)) total))
