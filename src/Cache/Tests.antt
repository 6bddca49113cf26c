-- ===== src/Cache/Tests.antt =====
-- Runs of dtstream/stream/stream_cache.c at a block of eight bytes, and its theorems at them.
use dtplayer_c.Base.{refl, inl, inr, [], ◌∷◌, arith, pos}
use dtplayer_c.Cache.{Cache}
use dtplayer_c.Cache.Inv.{IsValid, Keeps}

-- Bytes 1 to 6: the first two have been read and are kept.
abbrev part_read : Cache
part_read = record {
  mem = 1 ∷ 2 ∷ 3 ∷ 4 ∷ 5 ∷ 6 ∷ 0 ∷ 0 ∷ [];
  level = 4;
  total_size = 8;
  pre_size = pos 2;
  fix_pre_size = 2;
  pre_rp = 0;
  rp = 2;
  wp = 6;
}

part_read-IsValid : IsValid part_read
part_read-IsValid = record {
  fits = refl;
  rp_in = omega arith;
  wp_in = omega arith;
  level_in = omega arith;
  ends = inl refl;
}

part_read-Keeps : Keeps 2 part_read
part_read-Keeps = record {
  size_is = refl;
  pre_in = omega arith;
  room = omega arith;
  pre_ends = inl refl;
}

-- Kept bytes at the end of the block and before the read position: 4 and 5, then 1; 2 is unread.
abbrev around : Cache
around = record {
  mem = 1 ∷ 2 ∷ 0 ∷ 0 ∷ 0 ∷ 0 ∷ 4 ∷ 5 ∷ [];
  level = 1;
  total_size = 8;
  pre_size = pos 3;
  fix_pre_size = 1;
  pre_rp = 6;
  rp = 1;
  wp = 2;
}

around-IsValid : IsValid around
around-IsValid = record {
  fits = refl;
  rp_in = omega arith;
  wp_in = omega arith;
  level_in = omega arith;
  ends = inl refl;
}

around-Keeps : Keeps 3 around
around-Keeps = record {
  size_is = refl;
  pre_in = omega arith;
  room = omega arith;
  pre_ends = inr refl;
}
