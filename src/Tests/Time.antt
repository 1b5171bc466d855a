-- ===== src/Tests/Time.antt =====
-- Runs of the conversions and comparisons of time.
use handystats.Prelude.{ℕ, ◌+◌, ◌*◌, ◌^◌, ◌≤◌, ◌<◌, ◌≡◌, ◌≢◌, refl, true, pos, negsuc, ◌≤ℤ◌, arith}
use handystats.Machine.Milli.{milli}
use handystats.Chrono.Duration
use handystats.Chrono.Duration.{
  tick, nsec, usec, msec, sec, duration, finer, nsec_factor, convert_to,
}
use handystats.Chrono.Duration.Convert.{
  convert_to_floor, convert_to_round_trip, convert_to_negative,
}

usec_real : usec ≢ tick
usec_real = ground arith

msec_real : msec ≢ tick
msec_real = ground arith

msec_coarse : msec ≢ nsec
msec_coarse = ground arith

sec_real : sec ≢ tick
sec_real = ground arith

sec_not_msec : sec ≢ msec
sec_not_msec = ground arith

usec_finer : finer usec sec ≡ true
unfolding finer
usec_finer = refl

usec_fits : nsec_factor usec * 1999 < 2 ^ 63
unfolding nsec_factor
usec_fits = omega arith

sec_fits : nsec_factor sec * 3 < 2 ^ 63
unfolding nsec_factor
sec_fits = omega arith

convert_to_floor_example :
    (k : ℕ) × (convert_to ⦃m = milli⦄ msec (duration (pos 1999) usec) ≡ duration (pos k) msec)
    × (nsec_factor msec * k ≤ nsec_factor usec * 1999)
    × (nsec_factor usec * 1999 < nsec_factor msec * (k + 1))
convert_to_floor_example = convert_to_floor ⦃m = milli⦄ usec msec 1999 usec_real msec_real usec_fits

convert_to_round_trip_example :
    convert_to ⦃m = milli⦄ sec (convert_to ⦃m = milli⦄ usec (duration (pos 3) sec))
    ≡ duration (pos 3) sec
convert_to_round_trip_example =
    convert_to_round_trip ⦃m = milli⦄ sec usec 3 usec_real usec_finer sec_fits

convert_to_negative_example :
    pos 106751 ≤ℤ (convert_to ⦃m = milli⦄ msec (duration (negsuc 2) sec)).rep
convert_to_negative_example =
    convert_to_negative ⦃m = milli⦄ sec msec 2 sec_real msec_real msec_coarse sec_not_msec sec_fits

-- -3 s is 18446744070709 ms.
negative_run :
    convert_to ⦃m = milli⦄ msec (duration (negsuc 2) sec) ≡ duration (pos 18446744070709) msec
unfolding convert_to Duration.rescale
negative_run = refl
