-- ===== src/Host/Clock/Time.antt =====
-- How the system clock of dthost/dthost.c advances, and when a jump of a time is noted.
use dtplayer_c.Base.{
  ℕ, ◌+◌, ◌-◌, ◌*◌, ◌/◌, ◌<◌, ◌≡◌, ap, ◌∙◌, true, false, if◌then◌else◌, arith, leb, ℤ, pos, ◌≤ℤ◌,
  ◌-ℤ◌, ◌+ℤ◌, sub_ℕ, sub_64, add_64, mul_64, int64, int64_pos, wrap, two_63, llabs, quot,
}
use dtplayer_c.Host.{Host}
use dtplayer_c.Host.Clock.{is_invalid, is_jump, mark_audio_jump, host_update_systime}

sub_ℕ_le : (a b d : ℕ) → a ≡ b + d → sub_ℕ a b ≡ pos d
sub_ℕ_le a b d e = ground arith

sub_ℕ_zero : (x : ℕ) → sub_ℕ x 0 ≡ pos x
sub_ℕ_zero x = sub_ℕ_le x 0 x (omega arith)

sub_64_later : (t d : ℕ) → d < two_63 → sub_64 (pos (t + d)) (pos t) ≡ pos d
unfolding sub_64 ◌-ℤ◌
sub_64_later t d h = ap int64 (sub_ℕ_le (t + d + 0) (0 + t) d (omega arith)) ∙ int64_pos d h

-- The ticks of `d` microseconds.
ticks : ℕ → ℕ
ticks d = d * 9 / 100

ticks_of : (d : ℕ) → d * 9 < two_63 → quot (mul_64 (pos d) 9) 100 ≡ pos (ticks d)
unfolding mul_64 quot ticks
ticks_of d h =
    let e : int64 (sub_ℕ (d * 9) (0 * 9)) ≡ pos (d * 9) =
      ap int64 (sub_ℕ_zero (d * 9)) ∙ int64_pos (d * 9) h in
    rw e (sub_ℕ_zero (d * 9 / 100))

-- `d` microseconds after the clock was set to `s`, with every value in the range of `int64_t`, the
-- clock is updated to `s` and nine ticks for each 100 microseconds; the time before is kept.
pub host_update_systime_lem :
    (c : Host) (s t d : ℕ) (x : ℤ)
    → c.sys_time_start ≡ pos s
    → c.sys_time_start_time ≡ pos t
    → is_invalid c.sys_time_current ≡ false
    → d * 9 < two_63
    → s + d * 9 / 100 < two_63
    → ((host_update_systime (pos (t + d)) c x).1.sys_time_current ≡ pos (s + d * 9 / 100))
      × ((host_update_systime (pos (t + d)) c x).1.sys_time_last ≡ c.sys_time_current)
unfolding host_update_systime add_64 ◌+ℤ◌ ticks
host_update_systime_lem c s t d x start since valid h g =
    let e : quot (mul_64 (sub_64 (pos (t + d)) c.sys_time_start_time) 9) 100 ≡ pos (ticks d) =
      rw (since, sub_64_later t d (omega arith)) (ticks_of d h) in
    let n : int64 (sub_ℕ (s + d * 9 / 100) 0) ≡ pos (s + d * 9 / 100) =
      ap int64 (sub_ℕ_zero (s + d * 9 / 100)) ∙ int64_pos (s + d * 9 / 100) g in
    (simp (valid, start, e, n), simp valid)

systime-fields :
    (now : ℤ) (c : Host) (x : ℤ)
    → is_invalid c.sys_time_current ≡ false
    → ((host_update_systime now c x).1.sys_time_start ≡ c.sys_time_start)
      × ((host_update_systime now c x).1.sys_time_start_time ≡ c.sys_time_start_time)
unfolding host_update_systime
systime-fields now c x valid = (simp valid, simp valid)

pub is_invalid_pos : (n : ℕ) → is_invalid (pos n) ≡ false
unfolding is_invalid
is_invalid_pos n = ground arith

-- The clock never goes back: of two updates, `d` and then `d + d'` microseconds after the clock was
-- set to `s`, with every value in the range of `int64_t`, the second leaves a time at least the
-- first's.
pub host_update_systime-monotone :
    (c : Host) (s t d d' : ℕ) (x y : ℤ)
    → c.sys_time_start ≡ pos s
    → c.sys_time_start_time ≡ pos t
    → is_invalid c.sys_time_current ≡ false
    → (d + d') * 9 < two_63
    → s + (d + d') * 9 / 100 < two_63
    → (host_update_systime (pos (t + d)) c x).1.sys_time_current
      ≤ℤ (host_update_systime
          (pos (t + (d + d')))
          (host_update_systime (pos (t + d)) c x).1
          y).1.sys_time_current
host_update_systime-monotone c s t d d' x y start since valid h g =
    let first = host_update_systime_lem c s t d x start since valid (omega arith) (omega arith) in
    let (f, f') = systime-fields (pos (t + d)) c x valid in
    let c' : Host = (host_update_systime (pos (t + d)) c x).1 in
    let valid' : is_invalid c'.sys_time_current ≡ false =
      ap is_invalid first.0 ∙ is_invalid_pos _ in
    let second = host_update_systime_lem c' s t (d + d') y (f ∙ start) (f' ∙ since) valid' h g in
    rw (second.0, first.0) (omega arith)

-- The distance of two numbers.
distance : ℕ → ℕ → ℕ
distance a b = a - b + (b - a)

llabs-sub_64 :
    (a b : ℕ) → a < two_63 → b < two_63 → llabs (sub_64 (pos a) (pos b)) ≡ pos (distance a b)
unfolding llabs sub_64 int64 wrap ◌-ℤ◌ distance
llabs-sub_64 a b h g = ground arith

is_jump_at : (n : ℕ) → is_jump (pos n) ≡ leb 486000000 n
unfolding is_jump quot
is_jump_at n = ground arith

-- With the new and the last audio time in the range from 0 on, a new one is noted as a jump where
-- it is 486000000 ticks, 90 minutes, or more from the last one, in either direction. Otherwise
-- nothing changes.
pub mark_audio_jump_lem :
    (c : Host) (a b : ℕ)
    → c.pts_audio_current ≡ pos b
    → a < two_63
    → b < two_63
    → mark_audio_jump c (pos a) ≡ (
        if leb 486000000 (a - b + (b - a))
        then record c {
          audio_discontinue_flag = true;
          audio_discontinue_point = pos a;
          audio_discontinue_step = pos (a - b + (b - a));
        }
        else c)
unfolding mark_audio_jump distance
mark_audio_jump_lem c a b e h g =
    let l : llabs (sub_64 (pos a) c.pts_audio_current) ≡ pos (distance a b) =
      ap (λ p. llabs (sub_64 (pos a) p)) e ∙ llabs-sub_64 a b h g in
    simp (l, is_jump_at (distance a b))
