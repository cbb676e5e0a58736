-- ===== src/Store/Dash.antt =====
-- The concurrent map and set of the `dashmap` package, as far as a segment uses them: the
-- operations, with what their documentation says of them. Each operation locks what it touches, so
-- it is one step of the thread that makes it.
use mathlib.Core.List.{Perm}
use mathlib.Core.List.Perm
use ptraf.Shared.{
  ◌≡◌, refl, Option, none, some, List, [], ◌∷◌, any, if◌then◌else◌, unwrap_or, option_map,
}
use ptraf.Store.Traffic.{Metrics}
use ptraf.Store.Socket.{Interest, interest_eq, Socket, socket_eq}

-- `entry(k).and_modify(f).or_insert_with(|| v)`: the value under the key afterwards.
abbrev pub modified : (Metrics → Metrics) → Metrics → Option Metrics → Metrics
modified f v old = unwrap_or (option_map f old) v

pub record Dash : Type 1 where
  pub Index : Type 0
  pub default_index : Index
  pub get : Index → Interest → Option Metrics
  pub upsert : Index → Interest → (Metrics → Metrics) → Metrics → Index
  pub get-default_index : (k : Interest) → get default_index k ≡ none
  -- An upsert changes the value under its key and no other.
  pub get-upsert :
      (m : Index) (k : Interest) (f : Metrics → Metrics) (v : Metrics) (j : Interest)
      → get (upsert m k f v) j
        ≡ (if interest_eq k j then some (modified f v (get m k)) else get m j)
  pub Socks : Type 0
  pub default_socks : Socks
  pub insert : Socks → Socket → Socks
  pub iter : Socks → List Socket
  pub iter-default_socks : iter default_socks ≡ []
  -- A set keeps the element that it has; it is iterated in no particular order.
  pub iter-insert :
      (s : Socks) (a : Socket)
      → Perm (iter (insert s a)) (if any (socket_eq a) (iter s) then iter s else a ∷ iter s)

-- A map that is a function and a set that is a list.
abbrev pub simple_dash : Dash
simple_dash = record {
  Index = Interest → Option Metrics;
  default_index = λ _. none;
  get = λ m k. m k;
  upsert = λ m k f v j. if interest_eq k j then some (modified f v (m k)) else m j;
  get-default_index = λ k. refl;
  get-upsert = λ m k f v j. refl;
  Socks = List Socket;
  default_socks = [];
  insert = λ s a. if any (socket_eq a) s then s else a ∷ s;
  iter = λ s. s;
  iter-default_socks = refl;
  iter-insert = λ s a. Perm.refl _;
}
