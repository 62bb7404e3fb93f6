-- ===== src/Kernel/Area/Tests.antt =====
-- Runs of the calls of kernel/aspace.c on an empty address space, with eight free pages.
use frotznet.Prelude.{
  ◌≡◌, ◌+◌, ◌≤◌, ◌*◌, ◌%◌, refl, ℕ, some, List, [], ◌∷◌, ◌++◌, ◌<◌, arith, ◌==◌, ltb, if◌then◌else◌,
}
use frotznet.Prelude.Int.{pos}
use frotznet.Kernel.State.{Ptr, rsrc_none, t_running, Kernel, err_none, err_memory}
use frotznet.Kernel.Port.{new_port}
use frotznet.Kernel.Memory.{Pages}
use frotznet.Kernel.Memory.Chain.{Free}
use frotznet.Kernel.Aspace.{Vm, locate_span, span_start}
use frotznet.Kernel.Aspace.Span.{locate_span-first}
use frotznet.Kernel.Area.{pages_of, create}
use frotznet.Kernel.Area.Teardown.{destroy}
use frotznet.Kernel.Area.Resize.{resize_at}
use frotznet.Kernel.Area.Create.{place}
use frotznet.Kernel.Area.Drop.{pushed}
use frotznet.Kernel.Area.Mapped.{IsMapped, create-IsMapped}
use frotznet.Kernel.Area.Destroy.{destroy-IsMapped}
use frotznet.Kernel.Area.RoundTrip.{create-destroy}

abbrev kernel : Kernel
kernel = record {
  resources =
      λ a. record { id = 0; kind = rsrc_none; owner = 0; rights = []; queue = []; name = [] };
  tasks = λ a. record {
    waiting_on = 0;
    status = pos 0;
    wait_time = 0;
    flags = t_running;
    scount = 0;
    team = 0;
  };
  ports = λ a. new_port 0 0;
  sems = λ a. pos 0;
  teams = λ a. [];
  rmap = λ i. record { resource = 900; next = i + 1 };
  rmax = 16;
  rfree = 3;
  null_resource = 900;
  resource_list = [];
  current = 901;
  run_queue = 902;
  idle_task = 903;
  kernel_team = 904;
  live_tasks = 1;
  msg_pool = [];
}

abbrev pages : Pages
pages = record {
  pagelist = λ i. if i == 28 then 0 else i + 1;
  freepage = 21;
  used_pages = 0;
  total_pages = 8;
}

abbrev space : Ptr
space = 100

abbrev empty : Vm
empty = record {
  spaces = λ a. record { areas = []; pdir = λ i. 0; ptab = λ i. 0; pdirphys = 0 };
  areas = λ a. record { pgroup = 0; virt_addr = 0; length = 0; maxlength = 0 };
  groups = λ a. record { size = 0; refcount = 0; flags = 0; areas = []; chain = 0; slot = λ i. 0 };
  high = λ i. 0;
  pages = pages;
  kernel = kernel;
}

abbrev junk : ℕ → ℕ
junk i = 77

abbrev taken : List ℕ
taken = 21 ∷ 22 ∷ 23 ∷ []

abbrev left : List ℕ
left = 24 ∷ 25 ∷ 26 ∷ 27 ∷ 28 ∷ []

-- Three pages are asked for in the last two of the table.
locate_span_over_the_end : locate_span 1022 3 (λ i. 0) ≡ 1022
unfolding locate_span span_start
locate_span_over_the_end = refl

place_here : place space 9000 0 empty ≡ 512
unfolding locate_span span_start pages_of
place_here = refl

pages_here : pages_of 9000 ≡ 3
unfolding pages_of
pages_here = refl

-- An area of one page.
abbrev one_page : Vm
one_page = record empty {
  areas = λ a. record { pgroup = 0; virt_addr = 512; length = 1; maxlength = 1 };
  groups = λ a. record { size = 1; refcount = 1; flags = 0; areas = []; chain = 1; slot = λ i. 0 };
}

-- It grows by one byte: no page is to be added, and the call fails.
resize_by_a_byte : resize_at space 4097 (some 5) one_page ≡ some (err_memory, one_page)
unfolding locate_span span_start
resize_by_a_byte = refl

empty-IsMapped : IsMapped space empty
empty-IsMapped = record {
  distinct = tt;
  mapped = λ x i h. cc;
  inside = λ x h. cc;
  apart = λ x y i j h. cc;
}

abbrev busy : ℕ → ℕ
busy i = if ltb i 600 then 1 else if i == 601 then 1 else 0

busy_span : locate_span 0 3 busy ≡ 602
unfolding locate_span span_start
busy_span = refl

locate_span-first_example :
    let at = locate_span 0 3 busy in
    (span_start 0 ≤ at) × (at ≤ 700) × ((i : ℕ) → at ≤ i → i < at + 3 → busy i ≡ 0)
unfolding span_start
locate_span-first_example =
    locate_span-first 0 3 busy 700 (omega arith) (omega arith) (omega arith)
      (λ i h h'. ground arith)

pages-Free : Free pages.pagelist pages.freepage (taken ++ left)
pages-Free = (
  refl,
  (λ e. omega arith),
  (
    refl,
    (λ e. omega arith),
    (
      refl,
      (λ e. omega arith),
      (
        refl,
        (λ e. omega arith),
        (
          refl,
          (λ e. omega arith),
          (refl, (λ e. omega arith), (refl, (λ e. omega arith), (refl, (λ e. omega arith), refl))),
        ),
      ),
    ),
  ),
)

create-IsMapped_example :
    (m' : Vm) × (create space 200 300 junk 9000 0 0 0 empty
      ≡ some (record { result = pos 3; addr = place space 9000 0 empty * 4096 % 0x100000000 }, m'))
    × ((m'.spaces space).areas ≡ 300 ∷ [])
    × IsMapped space m'
create-IsMapped_example =
    create-IsMapped space 200 300 junk 9000 0 0 0 taken left empty empty-IsMapped refl (λ x h. cc)
      (omega (arith, place_here)) (omega (arith, place_here, pages_here)) (pages_here, pages-Free)
      (λ e. omega arith)

one_area :
    (m' : Vm) × (create space 200 300 junk 9000 0 0 0 empty
      ≡ some (record { result = pos 3; addr = place space 9000 0 empty * 4096 % 0x100000000 }, m'))
    × ((m'.spaces space).areas ≡ 300 ∷ [])
    × IsMapped space m'
one_area =
    create-IsMapped space 200 300 junk 9000 0 0 0 taken left empty empty-IsMapped refl (λ x h. cc)
      (omega (arith, place_here)) (omega (arith, place_here, pages_here)) (pages_here, pages-Free)
      (λ e. omega arith)

destroy-IsMapped_example : IsMapped space (destroy space 3 one_area.0).1
destroy-IsMapped_example = destroy-IsMapped space 3 one_area.0 one_area.3

create-destroy_example :
    (m' : Vm) × (create space 200 300 junk 9000 0 0 0 empty
      ≡ some (record { result = pos 3; addr = place space 9000 0 empty * 4096 % 0x100000000 }, m'))
    × let back = destroy space 3 m' in
      (back.0 ≡ err_none)
      × ((v : ℕ) → (back.1.spaces space).ptab v ≡ 0)
      × ((back.1.spaces space).areas ≡ [])
      × Free back.1.pages.pagelist back.1.pages.freepage (pushed taken left)
create-destroy_example =
    create-destroy space 200 300 junk 9000 0 0 0 taken left empty refl refl
      (omega (arith, place_here)) (omega (arith, place_here, pages_here)) pages_here pages-Free
      (refl, (refl, (refl, (refl, (refl, (refl, (refl, (refl, tt)))))))) (λ t h. ground arith)
      (λ e. omega arith) (omega arith)
