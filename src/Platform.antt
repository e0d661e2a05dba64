-- ===== src/Platform.antt =====
-- What the code takes from elsewhere: node ids and prefixes as comparable keys, and `float64`.
use nylon.Base.{ℕ, Bool}
use nylon.Base.Int.{ℤ}

-- `NodeId` is a string and `Prefix` is `netip.Prefix`. `Float` is `float64`: `literal m e` is the
-- constant m * 10^-e, `of_int` the conversion from an integer, `trunc` the one to `int64`, and `lt`
-- and `eq` the tests `<` and `==`.
pub record Platform : Type 1 where
  pub NodeId : Type 0
  pub Prefix : Type 0
  pub Float : Type 0
  -- `*device.Peer`
  pub Peer : Type 0
  pub node_eq : Discrete NodeId
  -- the order of the strings, `<=`
  pub node_le : NodeId → NodeId → Bool
  pub prefix_eq : Discrete Prefix
  pub literal : ℕ → ℕ → Float
  pub of_int : ℤ → Float
  pub trunc : Float → ℤ
  pub lt : Float → Float → Bool
  pub eq : Float → Float → Bool
  pub add : Float → Float → Float
  pub sub : Float → Float → Float
  pub mul : Float → Float → Float
  pub div : Float → Float → Float
