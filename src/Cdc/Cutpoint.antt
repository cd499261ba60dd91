-- ===== src/Cdc/Cutpoint.antt =====
-- The bounds of the cut point of cdc.go.
use kvfs.Base.{
  ℕ, zero, suc, ◌≤◌, ◌<◌, min, Bool, true, false, [], ◌∷◌, ◌≡◌, inl, inr, refl, if◌then◌else◌,
  length, ltb, leb, arith, Bool-cases,
}
use kvfs.Base.Text.{Bytes}
use kvfs.Cdc.{
  Params, CdcConfig, default_cdc_config, is_usable, params_from, params_of, Scan, cut, passed, roll,
  low_bits_zero, warm, scan, then_scan, cut_or, relax_start, cutpoint,
}

-- The sizes of a reader: NewCDCReader sees to it.
pub record IsUsable (cfg : Params) : Type 0 where
  pub some_bytes : 0 < cfg.min_size
  pub min_normal : cfg.min_size ≤ cfg.normal_size
  pub normal_max : cfg.normal_size ≤ cfg.max_size

-- Whatever the configuration, a reader's sizes are usable.
pub params_of-IsUsable : (cfg : CdcConfig) → IsUsable (params_of cfg)
unfolding params_of is_usable params_from
params_of-IsUsable cfg = by_test (is_usable cfg) refl
  where
    by_test :
        (b : Bool)
        → is_usable cfg ≡ b
        → IsUsable (if b then params_from cfg else params_from default_cdc_config)
    by_test true e = record {
      some_bytes = ground (arith, e);
      min_normal = ground (arith, e);
      normal_max = ground (arith, e);
    }
    by_test false e = record {
      some_bytes = omega arith;
      min_normal = omega arith;
      normal_max = omega arith;
    }

-- A cut that a scan has found lies between lo and hi.
abbrev Within : ℕ → ℕ → Scan → Type 0
Within lo hi (cut n) = (lo ≤ n) × (n ≤ hi)
Within lo hi (passed fp rest) = Unit

module _ (gear : ℕ → ℕ) where
  warm-Within : (lo hi fp k : ℕ) (body : Bytes) → Within lo hi (warm gear fp k body)
  unfolding warm
  warm-Within lo hi fp zero body = tt
  warm-Within lo hi fp (suc k) [] = tt
  warm-Within lo hi fp (suc k) (b ∷ body) = warm-Within lo hi (roll gear fp b) k body

  scan-Within :
      (lo hi bits stop i fp : ℕ) (body : Bytes)
      → lo ≤ i
      → stop ≤ hi
      → Within lo hi (scan gear bits stop i fp body)
  unfolding scan
  scan-Within lo hi bits stop i fp [] l h = tt
  scan-Within lo hi bits stop i fp (b ∷ body) l h =
      step (low_bits_zero bits (roll gear fp b)) (ltb i stop) _ refl
        (scan-Within lo hi bits stop (suc i) (roll gear fp b) body (omega (arith, l)) h)
    where
      step :
          (zeros t : Bool) (later : Scan)
          → ltb i stop ≡ t
          → Within lo hi later
          → Within lo hi
              (if t then (if zeros then cut (suc i) else later) else passed fp (b ∷ body))
      step true true later e w = (omega (arith, l), ground (arith, e, h))
      step false true later e w = w
      step zeros false later e w = tt

  then_scan-Within :
      (lo hi bits i stop : ℕ) (s : Scan)
      → lo ≤ i
      → stop ≤ hi
      → Within lo hi s
      → Within lo hi (then_scan gear bits i stop s)
  unfolding then_scan
  then_scan-Within lo hi bits i stop (cut n) l h w = w
  then_scan-Within lo hi bits i stop (passed fp rest) l h w =
      scan-Within lo hi bits stop i fp rest l h

  cut_or-le :
      (lo limit : ℕ) (s : Scan)
      → lo ≤ limit
      → Within lo limit s
      → (lo ≤ cut_or gear limit s) × (cut_or gear limit s ≤ limit)
  unfolding cut_or
  cut_or-le lo limit (cut n) l w = w
  cut_or-le lo limit (passed fp rest) l w = (l, omega arith)

  relax_start-le :
      (cfg : Params) (normal limit : ℕ)
      → normal ≤ limit
      → (normal ≤ relax_start gear cfg normal limit) × (relax_start gear cfg normal limit ≤ limit)
  unfolding relax_start
  relax_start-le cfg normal limit h = (ground (arith, h), ground (arith, h))

  phases-le :
      (cfg : Params) (body : Bytes) (normal relax limit : ℕ)
      → cfg.min_size ≤ normal
      → normal ≤ relax
      → relax ≤ limit
      → let n = cut_or gear limit (
          then_scan gear cfg.bits_relax relax limit (
            then_scan gear cfg.bits_loose normal relax (
              then_scan gear cfg.bits_strict cfg.min_size normal
                (warm gear 0 cfg.min_size body)))) in
        (cfg.min_size ≤ n) × (n ≤ limit)
  phases-le cfg body normal relax limit a b c =
      let lo = cfg.min_size in
      cut_or-le lo limit _ (omega (arith, a, b, c)) (
        then_scan-Within lo limit cfg.bits_relax relax limit _ (omega (arith, a, b)) (omega arith) (
          then_scan-Within lo limit cfg.bits_loose normal relax _ a c (
            then_scan-Within lo limit cfg.bits_strict lo normal _ (omega arith)
              (omega (arith, b, c)) (warm-Within lo limit 0 lo body))))

  -- The cut point of a body is at least the minimal size, or the end of a shorter body, and at most
  -- the maximal size and the body's length.
  pub cutpoint-le :
      (cfg : Params) (body : Bytes)
      → IsUsable cfg
      → (min cfg.min_size (length body) ≤ cutpoint gear cfg body)
        × (cutpoint gear cfg body ≤ min cfg.max_size (length body))
  unfolding cutpoint
  cutpoint-le cfg body u =
      let limit = if ltb cfg.max_size (length body) then cfg.max_size else length body in
      let normal = if ltb limit cfg.normal_size then limit else cfg.normal_size in
      let relax = relax_start gear cfg normal limit in
      let (low, high) = relax_start-le cfg normal limit normal_le in
      elim (Bool-cases (leb (length body) cfg.min_size)) [
        | inl e ↦ rw e (short e)
        | inr e ↦ rw e (long e (phases-le cfg body normal relax limit (min_le e) low high))
      ]
    where
      normal_le :
          (if ltb
              (if ltb cfg.max_size (length body) then cfg.max_size else length body)
              cfg.normal_size
            then if ltb cfg.max_size (length body) then cfg.max_size else length body
            else cfg.normal_size)
          ≤ (if ltb cfg.max_size (length body) then cfg.max_size else length body)
      normal_le = ground arith

      min_le :
          leb (length body) cfg.min_size ≡ false
          → cfg.min_size ≤ (
              if ltb
                (if ltb cfg.max_size (length body) then cfg.max_size else length body)
                cfg.normal_size
              then if ltb cfg.max_size (length body) then cfg.max_size else length body
              else cfg.normal_size)
      min_le e = ground (arith, e, u.min_normal, u.normal_max)

      short :
          leb (length body) cfg.min_size ≡ true
          → (min cfg.min_size (length body) ≤ length body)
            × (length body ≤ min cfg.max_size (length body))
      short e = (omega arith, ground (arith, e, u.min_normal, u.normal_max))

      long :
          {n : ℕ}
          → leb (length body) cfg.min_size ≡ false
          → (cfg.min_size ≤ n)
            × (n ≤ (if ltb cfg.max_size (length body) then cfg.max_size else length body))
          → (min cfg.min_size (length body) ≤ n) × (n ≤ min cfg.max_size (length body))
      long e (a, b) = (ground (arith, a), ground (arith, b))
