-- ===== src/Kernel/Heap/Tests.antt =====
-- A run of kgetpage and kfreepage.
use frotznet.Prelude.{◌*◌, ◌+◌, ltb, ◌≡◌, refl, some, [], ◌∷◌, arith, ◌==◌, if◌then◌else◌}
use frotznet.Kernel.State.{Ptr}
use frotznet.Kernel.Memory.{pool}
use frotznet.Kernel.Heap.{Heap, kgetpage, kfreepage}
use frotznet.Kernel.Heap.Map.{IsHeap}
use frotznet.Kernel.Heap.Free.{Back, kfreepage-kgetpage}

-- The image of the kernel has 64 pages. The physical pages 3 and 5 are free, and the page at 0x803fd000 of the kernel's space is, whose node
-- is the block at 0x803fe000.
abbrev heap : Heap
heap = record {
  pages = record {
    pagelist = λ i. if i == 3 then 5 else 0;
    freepage = 3;
    used_pages = 4;
    total_pages = 6;
  };
  high = λ i. if ltb i 64 then i * 4096 + 0x100003 else if i == 0x3fe then 0x7003 else 0;
  nextmem = 0x803fc000;
  freevpages = (0x803fe000, 0x803fd000) ∷ [];
  pools = λ size. pool 16 250 0x803fe060;
}

heap-IsHeap : IsHeap heap
heap-IsHeap = record {
  aligned = omega arith;
  bounds = omega arith;
  below = λ i le lt. ground arith;
  listed = (omega arith, refl, refl, tt);
}

kfreepage-kgetpage_example :
    (v : Ptr) × (h' : Heap) × (h'' : Heap) × (kgetpage heap ≡ some (v, h'))
    × (kfreepage v h' ≡ some h'')
    × Back heap v h''
kfreepage-kgetpage_example =
    kfreepage-kgetpage heap heap-IsHeap (omega arith) (omega arith) (omega arith) (omega arith)
