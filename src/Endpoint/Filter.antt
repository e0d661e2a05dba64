-- ===== src/Endpoint/Filter.antt =====
-- `delayFilter` of state/endpoint.go: an EWMA followed by a windowed median with hysteresis.
pub mod Ranks
pub mod Reads
use nylon.Base.{
  ℕ, ◌*◌, ◌/◌, Bool, true, false, not, ◌&&◌, ◌||◌, List, [], ◌∷◌, ◌++◌, ltb, leb, if◌then◌else◌,
  length, drop, sort, Option, none, some, zero, suc,
}
use nylon.Base.Int.{ℤ, pos, negsuc, ltb_ℤ}
use nylon.Base.Options.{◌>>=◌}
use nylon.Platform.{Platform}
use nylon.Tunables.{RouterTunables, second}

-- a minute
abbrev pub clock_jump_reset : ℕ
clock_jump_reset = 60 * second

abbrev pub leb_ℤ : ℤ → ℤ → Bool
leb_ℤ a b = not (ltb_ℤ b a)

-- an element by its index; `none` is out of range
abbrev pub get_elem? {ℓ} : {A : Type ℓ} → List A → ℕ → Option A
get_elem? [] i = none
get_elem? (x ∷ xs) zero = some x
get_elem? (x ∷ xs) (suc i) = get_elem? xs i

abbrev pub at {ℓ} : {A : Type ℓ} → List A → ℤ → Option A
at xs (pos i) = get_elem? xs i
at xs (negsuc i) = none

module _ ⦃P : Platform⦄ where
  pub record DelayFilter : Type 0 where
    pub history : List ℤ
    pub hist_sort : List ℤ
    pub dirty : Bool
    pub prev_median : ℤ
    pub exp : P.Float
    pub init : Bool

  -- the zero value
  unfoldable pub fresh : DelayFilter
  fresh = record {
    history = [];
    hist_sort = [];
    dirty = false;
    prev_median = pos 0;
    exp = P.of_int (pos 0);
    init = false;
  }

  unfoldable pub reset : DelayFilter → DelayFilter
  reset f = record f {
    history = [];
    dirty = true;
    init = false;
    exp = P.of_int (pos 0);
    prev_median = pos 0;
  }

  -- `math.Abs(s - f.exp) > ClockJumpReset`
  unfoldable pub jumped : DelayFilter → P.Float → Bool
  jumped f s =
      let limit = P.of_int (pos clock_jump_reset) in
      P.lt limit (P.sub s f.exp) || P.lt limit (P.sub f.exp s)

  unfoldable pub update : DelayFilter → ℤ → RouterTunables → DelayFilter
  unfolding reset jumped
  update f sample t =
      let s = P.of_int sample in
      let g = (if f.init && jumped f s then reset f else f) in
      let alpha = P.literal 836 4 in
      let start = (if g.init then g.exp else s) in
      let exp = P.add (P.mul alpha s) (P.mul (P.sub (P.literal 1 0) alpha) start) in
      let history = g.history ++ P.trunc exp ∷ [] in
      record g {
        init = true;
        exp = exp;
        history = if ltb t.window_samples (length history) then drop 1 history else history;
        dirty = true;
      }

  unfoldable pub ready : DelayFilter → RouterTunables → Bool
  ready f t = leb t.minimum_confidence_window (length f.history)

  unfoldable pub filtered : DelayFilter → ℤ
  filtered f = if f.init then P.trunc f.exp else pos 0

  -- `int(float64(n) * x)`
  unfoldable pub scale_index : ℕ → P.Float → ℤ
  scale_index n x = P.trunc (P.mul (P.of_int (pos n)) x)

  -- the value and the filter that the read leaves, from the three samples that it compares
  abbrev pub settle : DelayFilter → List ℤ → (low high med : ℤ) → ℤ × DelayFilter
  settle f sorted low high med =
      let median =
        (if ltb_ℤ f.prev_median low || ltb_ℤ high f.prev_median then med else f.prev_median) in
      (median, record f { hist_sort = sorted; dirty = false; prev_median = median })

  -- `none` is the panic for an index out of range
  unfoldable pub stabilized : DelayFilter → RouterTunables → Option (ℤ × DelayFilter)
  unfolding scale_index
  stabilized f t =
      let sorted = (if f.dirty then sort leb_ℤ f.history else f.hist_sort) in
      let le = length sorted in
      do
        low ← at sorted (scale_index le t.outlier_percentage)
        high ← at sorted (scale_index le (P.sub (P.literal 1 0) t.outlier_percentage))
        med ← at sorted (pos (le / 2))
        some (settle f sorted low high med)
