-- ===== src/Limiter/Window.antt =====
-- The absolute limiter: how many requests of one window it lets through.
use Prim.Native.Nat.{min}
use ipojknm.Prelude.{
  Bool, true, false, ℕ, suc, ◌+◌, ◌-◌, ◌<◌, ◌≡◌, refl, List, [], ◌∷◌, length, ltb, if◌then◌else◌,
  arith, All,
}
use ipojknm.Core.{RequestData}
use ipojknm.Limiter.{since, AbsConnLimiter, allow_abs}

-- Requests with the clock of each call.
abbrev pub Calls : Type 0
Calls = List ((ℕ → ℕ) × RequestData)

abbrev pub count_if : Bool → ℕ → ℕ
count_if true n = suc n
count_if false n = n

-- How many of the calls are let through, and the limiter behind them.
unfoldable pub serve_abs : Calls → AbsConnLimiter → ℕ × AbsConnLimiter
serve_abs [] r = (0, r)
serve_abs ((clock, req) ∷ calls) r =
    let (ok', r') = allow_abs clock req r in
    let (n, r'') = serve_abs calls r' in (count_if ok' n, r'')

-- The call falls into the window that began at `start`.
abbrev pub InWindow : ℕ → ℕ → (ℕ → ℕ) × RequestData → Type 0
InWindow start cooldown call = since (call.0 0) start < cooldown

step_in_window :
    (clock : ℕ → ℕ) (req : RequestData) (r : AbsConnLimiter)
    → since (clock 0) r.rate_start_time < r.rate_cooldown
    → r.limit_status ≡ true
    → allow_abs clock req r ≡ (
      ltb r.rate_counter r.rate_limit,
      record r {
        rate_counter =
            if ltb r.rate_counter r.rate_limit then r.rate_counter + 1 else r.rate_counter;
      },
    )
unfolding allow_abs
step_in_window clock req r h l = ground arith

-- Within one window a limiter that limits lets through exactly as many of the calls as its limit
-- still has room for.
pub serve_abs-count :
    (calls : Calls) (r : AbsConnLimiter)
    → r.limit_status ≡ true
    → All (InWindow r.rate_start_time r.rate_cooldown) calls
    → (serve_abs calls r).0 ≡ min (length calls) (r.rate_limit - r.rate_counter)
unfolding serve_abs
serve_abs-count [] r l h = omega arith
serve_abs-count ((clock, req) ∷ calls) r l h = rw (step_in_window clock req r h.0 l) (
    ground (
      arith,
      serve_abs-count calls
          (record r {
            rate_counter =
                if ltb r.rate_counter r.rate_limit then r.rate_counter + 1 else r.rate_counter;
          })
          l h.1,
    ))

-- A limiter whose `limitStatus` is false lets every call through, of any type, whatever its limit is.
pub serve_abs_unlimited :
    (calls : Calls) (r : AbsConnLimiter)
    → r.limit_status ≡ false
    → (serve_abs calls r).0 ≡ length calls
unfolding serve_abs
serve_abs_unlimited [] r l = refl
serve_abs_unlimited ((clock, req) ∷ calls) r l =
    ground (arith, unlimited clock req r l, serve_abs_unlimited calls (allow_abs clock req r).1)
  where
    unlimited :
        (clock : ℕ → ℕ) (req : RequestData) (r : AbsConnLimiter)
        → r.limit_status ≡ false
        → ((allow_abs clock req r).0 ≡ true) × ((allow_abs clock req r).1.limit_status ≡ false)
    unlimited clock req r l = unfold allow_abs in ground arith
