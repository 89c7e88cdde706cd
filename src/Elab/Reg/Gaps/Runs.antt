-- ===== src/Elab/Reg/Gaps/Runs.antt =====
-- The gaps are the maximal runs of bits that are not covered.
use systemrdl_toolkit.Base.{
  ℕ, zero, suc, ◌+◌, ◌-◌, ◌≤◌, ◌<◌, ◌≡◌, ◌≢◌, refl, sym, subst, Bool-cases, ap, ◌∙◌, Bool, true,
  false, not, ◌&&◌, ◌||◌, List, [], ◌∷◌, ◌++◌, append-nil, append_assoc, Option, none, some, arith,
  ltb, leb, ◌==◌, if◌then◌else◌, length, get_or, inl, inr,
}
use systemrdl_toolkit.Elab.Model.{Field}
use systemrdl_toolkit.Elab.Reg.Gaps.{
  Gap, GapScan, gap_step, gap_scan, gap_finish, bit_coverage, find_register_gaps,
}
use systemrdl_toolkit.Elab.Reg.Gaps.Coverage.{covering, length-bit_coverage, bit_coverage_lem}

-- the runs from `bit` on, where a run that began at the given bit is still open
runs : ℕ → Option ℕ → List Bool → List Gap
runs bit none [] = []
runs bit (some s) [] = record { msb = bit - 1; lsb = s } ∷ []
runs bit none (true ∷ coverage) = runs (suc bit) none coverage
runs bit none (false ∷ coverage) = runs (suc bit) (some bit) coverage
runs bit (some s) (true ∷ coverage) =
    record { msb = bit - 1; lsb = s } ∷ runs (suc bit) none coverage
runs bit (some s) (false ∷ coverage) = runs (suc bit) (some s) coverage

abbrev start_of : GapScan → Option ℕ
start_of st = if st.in_gap then some st.gap_start else none

gap_scan-runs :
    (bit width : ℕ) (coverage : List Bool) (gaps : List Gap) (gap_start : ℕ) (in_gap : Bool)
    → bit + length coverage ≡ width
    → gap_finish width
        (gap_scan bit coverage (record { gaps = gaps; gap_start = gap_start; in_gap = in_gap }))
      ≡ gaps ++ runs bit (if in_gap then some gap_start else none) coverage
unfolding gap_scan gap_finish gap_step runs
gap_scan-runs bit width [] gaps s true e =
    ap (λ n. gaps ++ record { msb = n - 1; lsb = s } ∷ []) (omega arith)
gap_scan-runs bit width [] gaps s false e = sym (append-nil gaps)
gap_scan-runs bit width (true ∷ coverage) gaps s true e =
    gap_scan-runs (suc bit) width coverage (gaps ++ record { msb = bit - 1; lsb = s } ∷ []) s false
      (omega arith)
    ∙ append_assoc gaps _ _
gap_scan-runs bit width (true ∷ coverage) gaps s false e =
    gap_scan-runs (suc bit) width coverage gaps s false (omega arith)
gap_scan-runs bit width (false ∷ coverage) gaps s true e =
    gap_scan-runs (suc bit) width coverage gaps s true (omega arith)
gap_scan-runs bit width (false ∷ coverage) gaps s false e =
    gap_scan-runs (suc bit) width coverage gaps bit true (omega arith)

-- how many of the gaps hold bit `b`
unfoldable pub gap_count : ℕ → List Gap → ℕ
gap_count b [] = 0
gap_count b (g ∷ gaps) = (if leb g.lsb b && leb b g.msb then 1 else 0) + gap_count b gaps

abbrev open_run : ℕ → ℕ → Option ℕ → Bool
open_run b bit none = false
open_run b bit (some s) = leb s b && ltb b bit

abbrev Begun : ℕ → Option ℕ → Type 0
Begun bit none = Unit {0}
Begun bit (some s) = s < bit

-- bit `b` is not covered, in the coverage from `bit` on
is_free : ℕ → ℕ → List Bool → Bool
is_free b bit [] = false
is_free b bit (covered ∷ coverage) = (b == bit && not covered) || is_free b (suc bit) coverage

is_free_below : (b bit : ℕ) (coverage : List Bool) → b < bit → is_free b bit coverage ≡ false
unfolding is_free
is_free_below b bit [] h = refl
is_free_below b bit (c ∷ coverage) h = ground (arith, is_free_below b (suc bit) coverage)

is_free_ne :
    (b bit : ℕ) (c : Bool) (coverage : List Bool)
    → b ≢ bit
    → is_free b bit (c ∷ coverage) ≡ is_free b (suc bit) coverage
unfolding is_free
is_free_ne b bit c coverage h = ground arith

is_free-get_or :
    (k bit : ℕ) (coverage : List Bool)
    → k < length coverage
    → is_free (bit + k) bit coverage ≡ not (get_or coverage k false)
unfolding is_free
is_free-get_or k bit [] h = elim h [ ]
is_free-get_or zero bit (c ∷ coverage) h =
    ground (arith, is_free_below (bit + 0) (suc bit) coverage)
is_free-get_or (suc k) bit (c ∷ coverage) h =
    let e : suc bit + k ≡ bit + suc k = omega arith in
    let later : is_free (bit + suc k) (suc bit) coverage ≡ not (get_or coverage k false) =
      subst (λ n. is_free n (suc bit) coverage ≡ not (get_or coverage k false)) e
        (is_free-get_or k (suc bit) coverage (omega arith)) in
    is_free_ne (bit + suc k) bit c coverage (omega arith) ∙ later

ltb_pred : (b bit : ℕ) → 0 < bit → leb b (bit - 1) ≡ ltb b bit
ltb_pred b bit h = ground arith

-- the count when the run from `s` ends before a covered bit
close_count :
    (b bit s n : ℕ) (free : Bool)
    → leb b (bit - 1) ≡ ltb b bit
    → n ≡ (if free then 1 else 0)
    → (b < suc bit → free ≡ false)
    → (if leb s b && leb b (bit - 1) then 1 else 0) + n
      ≡ (if (leb s b && ltb b bit) || ((b == bit && false) || free) then 1 else 0)
close_count b bit s n free e count below = rw e (elim (Bool-cases (leb s b && ltb b bit)) [
  | inl held ↦ rw held (ground (arith, below))
  | inr other ↦ rw other (ground arith)
])

run_begins :
    (b bit : ℕ) (free : Bool)
    → ((leb bit b && ltb b (suc bit)) || free) ≡ ((b == bit && true) || free)
run_begins b bit true = ground arith
run_begins b bit false = ground arith

run_goes_on :
    (b bit s : ℕ) (free : Bool)
    → s < bit
    → ((leb s b && ltb b (suc bit)) || free)
      ≡ ((leb s b && ltb b bit) || ((b == bit && true) || free))
run_goes_on b bit s true h = ground arith
run_goes_on b bit s false h = ground arith

gap_count-runs :
    (b bit : ℕ) (o : Option ℕ) (coverage : List Bool)
    → Begun bit o
    → gap_count b (runs bit o coverage)
      ≡ (if open_run b bit o || is_free b bit coverage then 1 else 0)
unfolding gap_count runs is_free
gap_count-runs b bit none [] h = refl
gap_count-runs b bit (some s) [] h = ground arith
gap_count-runs b bit none (true ∷ coverage) h =
    ground (arith, gap_count-runs b (suc bit) none coverage)
gap_count-runs b bit none (false ∷ coverage) h =
    gap_count-runs b (suc bit) (some bit) coverage (omega arith)
    ∙ ap (λ t. if t then 1 else 0) (run_begins b bit (is_free b (suc bit) coverage))
gap_count-runs b bit (some s) (true ∷ coverage) h =
    close_count b bit s _ (is_free b (suc bit) coverage) (ltb_pred b bit (omega arith))
      (gap_count-runs b (suc bit) none coverage tt) (is_free_below b (suc bit) coverage)
gap_count-runs b bit (some s) (false ∷ coverage) h =
    gap_count-runs b (suc bit) (some s) coverage (omega arith)
    ∙ ap (λ t. if t then 1 else 0) (run_goes_on b bit s (is_free b (suc bit) coverage) h)

-- From `lo` on: each gap is a range of bits, and at least one covered bit lies between two gaps.
abbrev pub Separate : ℕ → ℕ → List Gap → Type 0
Separate lo width [] = Unit {0}
Separate lo width (g ∷ gaps) =
    (lo ≤ g.lsb) × (g.lsb ≤ g.msb) × (g.msb < width) × Separate (g.msb + 2) width gaps

Separate-le :
    (lo hi width : ℕ) (gaps : List Gap) → lo ≤ hi → Separate hi width gaps → Separate lo width gaps
Separate-le lo hi width [] le h = tt
Separate-le lo hi width (g ∷ gaps) le h = (omega arith, h.1, h.2, h.3)

abbrev Fits : ℕ → ℕ → Option ℕ → Type 0
Fits lo bit none = lo ≤ bit
Fits lo bit (some s) = (lo ≤ s) × (s < bit)

runs-Separate :
    (lo bit width : ℕ) (o : Option ℕ) (coverage : List Bool)
    → Fits lo bit o
    → bit + length coverage ≡ width
    → Separate lo width (runs bit o coverage)
unfolding runs
runs-Separate lo bit width none [] h e = tt
runs-Separate lo bit width (some s) [] h e = (h.0, omega arith, omega arith, tt)
runs-Separate lo bit width none (true ∷ coverage) h e =
    runs-Separate lo (suc bit) width none coverage (omega arith) (omega arith)
runs-Separate lo bit width none (false ∷ coverage) h e =
    runs-Separate lo (suc bit) width (some bit) coverage (omega arith) (omega arith)
runs-Separate lo bit width (some s) (true ∷ coverage) h e = (
  h.0,
  omega arith,
  omega arith,
  runs-Separate (bit - 1 + 2) (suc bit) width none coverage (omega arith) (omega arith),
)
runs-Separate lo bit width (some s) (false ∷ coverage) h e =
    runs-Separate lo (suc bit) width (some s) coverage (omega arith) (omega arith)

find_register_gaps-runs :
    (width : ℕ) (fields : List Field)
    → find_register_gaps width fields ≡ runs 0 none (bit_coverage width fields)
unfolding find_register_gaps
find_register_gaps-runs width fields =
    gap_scan-runs 0 width (bit_coverage width fields) [] 0 false
      (omega (arith, length-bit_coverage width fields))

-- The gaps of a register are the maximal runs of bits that no field holds: a bit of the register
-- lies in exactly one gap if no field holds it and in none otherwise; every gap is a range within
-- the register, and between two gaps there is a bit that some field holds.
pub find_register_gaps_exact :
    (width : ℕ) (fields : List Field)
    → ((b : ℕ)
        → b < width
        → gap_count b (find_register_gaps width fields)
          ≡ (if ltb 0 (covering b fields) then 0 else 1))
      × Separate 0 width (find_register_gaps width fields)
find_register_gaps_exact width fields = (
  λ b below. rw (find_register_gaps-runs width fields) (
      ground (
        arith,
        gap_count-runs b 0 none (bit_coverage width fields) tt,
        is_free-get_or b 0 (bit_coverage width fields),
        length-bit_coverage width fields,
        bit_coverage_lem width b fields below,
      )),
  rw (find_register_gaps-runs width fields) (
      runs-Separate 0 0 width none (bit_coverage width fields) (omega arith)
        (omega (arith, length-bit_coverage width fields))),
)
