-- ===== src/Kernel/Memory/Tests.antt =====
-- Runs of the page chain and of a pool.
use frotznet.Prelude.{inl, refl, [], ◌∷◌, arith}
use frotznet.Kernel.Memory.{Pool}
use frotznet.Kernel.Memory.Blocks.{IsPool}

-- One block in use, one free, and one left on the fresh page.
abbrev blocks : Pool
blocks = record {
  size = 16;
  used_count = 1;
  fresh_count = 1;
  free_count = 1;
  free_chain = 4112 ∷ [];
  fresh_chain = 4128;
}

-- The same with both in use.
abbrev full : Pool
full = record blocks { used_count = 2; free_count = 0; free_chain = [] }

blocks-IsPool : IsPool (4096 ∷ []) (4112 ∷ []) blocks
blocks-IsPool = record {
  size = (omega arith, omega arith);
  chain = refl;
  used_counted = refl;
  free_counted = refl;
  fresh = omega arith;
  distinct = ((refl, tt), (refl, tt));
  apart = λ b h. ground arith;
  outside = λ b h. inl (ground arith);
}

full-IsPool : IsPool (4112 ∷ 4096 ∷ []) [] full
full-IsPool = record {
  size = (omega arith, omega arith);
  chain = refl;
  used_counted = refl;
  free_counted = refl;
  fresh = omega arith;
  distinct = ((refl, (refl, tt)), tt);
  apart = λ b h. refl;
  outside = λ b h. inl (ground arith);
}
