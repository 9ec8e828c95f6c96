-- ===== src/Server/Worker/Drop.antt =====
-- server/stream.c: which frames a drop rate lets through.
use svr.Base.{
  ℕ, zero, suc, ◌+◌, ◌%◌, ◌^◌, ◌<◌, true, false, ◌==◌, ltb, ◌≡◌, refl, ap, ◌∙◌, arith, mod-add-mod,
  mod-eq_of_lt,
}
use svr.Base.Dict.{Dictionary}
use svr.Server.State.{Stream}
use svr.Server.Streams.{set_drop_rate}
use svr.Server.Worker.{count_frame}

module _ (D : Dictionary) where
  -- The stream after `n` frames.
  unfoldable pub after_frames : ℕ → Stream D → Stream D
  after_frames zero s = s
  after_frames (suc n) s = (count_frame D (after_frames n s)).1

  counted :
      (n rate : ℕ) (s : Stream D)
      → 0 < rate
      → rate < 2 ^ 31
      → (count_frame D (record s { drop_rate = rate; drop_counter = n % rate })).1
        ≡ record s { drop_rate = rate; drop_counter = suc n % rate }
  unfolding count_frame
  counted n rate s h b =
      let off : (rate == 0) ≡ false = ground arith in
      let positive : ltb rate (2 ^ 31) ≡ true = ground arith in
      let next : suc n ≡ n + 1 = omega arith in rw (off, positive, mod-add-mod n rate 1, next) refl

  after_frames_lem :
      (n rate : ℕ) (s : Stream D)
      → 0 < rate
      → rate < 2 ^ 31
      → after_frames n (set_drop_rate D s rate).1
        ≡ record s { drop_rate = rate; drop_counter = n % rate }
  unfolding after_frames set_drop_rate count_frame
  after_frames_lem zero rate s h b = rw (mod-eq_of_lt {n = 0} {m = rate} h) refl
  after_frames_lem (suc n) rate s h b =
      ap (λ (t : Stream D). (count_frame D t).1) (after_frames_lem n rate s h b)
      ∙ counted n rate s h b

  -- A drop rate of `rate`, above 0 and below 2 ^ 31, lets through the frames whose number, from 1 on, is a
  -- multiple of it, and no others: after `n` frames the counter is `n % rate`, and frame `n + 1` is sent exactly
  -- when `(n + 1) % rate` is 0.
  pub count_frame-every :
      (n rate : ℕ) (s : Stream D)
      → 0 < rate
      → rate < 2 ^ 31
      → (after_frames n (set_drop_rate D s rate).1
          ≡ record s { drop_rate = rate; drop_counter = n % rate })
        × ((count_frame D (after_frames n (set_drop_rate D s rate).1)).0 ≡ ((n + 1) % rate == 0))
  unfolding count_frame
  count_frame-every n rate s h b =
      let off : (rate == 0) ≡ false = ground arith in
      let positive : ltb rate (2 ^ 31) ≡ true = ground arith in
      (
        after_frames_lem n rate s h b,
        rw (after_frames_lem n rate s h b, off, positive, mod-add-mod n rate 1) refl,
      )
