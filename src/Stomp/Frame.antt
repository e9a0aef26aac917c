-- ===== src/Stomp/Frame.antt =====
-- Frames of github.com/go-stomp/stomp/v3, as far as stompserver/ uses them. Their headers are code of
-- that package: a type `H` with its operations. A body is a number that stands for the bytes.
use Prim.Native.String
use ranch.Prelude.{
  Bool, List, Option, String, false, if◌then◌else◌, nat_eq, none, some, string_eq, suc, true, zero,
  ℕ, ◌%◌, ◌/◌, ◌==◌, ◌≡◌,
}

-- The commands that the code names; any other is `other`.
pub data Command : Type 0 where
  connect stomp connected disconnect send subscribe unsubscribe message receipt error other :
      Command

-- frame.Header: Contains gives the first value of a key, Add appends, Set replaces, Del removes all.
pub record HeaderApi (H : Type 0) : Type 0 where
  pub of_list : List (String × String) → H
  pub contains : H → String → Option String
  pub add : H → String → String → H
  pub set_value : H → String → String → H
  pub del : H → String → H
  pub contains-set :
      (h : H) (k j v : String)
      → contains (set_value h k v) j ≡ (if k == j then some v else contains h j)
  pub contains-del :
      (h : H) (k j : String) → contains (del h k) j ≡ (if k == j then none else contains h j)
  pub contains-add_none :
      (h : H) (k v : String) → contains h k ≡ none → contains (add h k v) k ≡ some v

pub record Frame (H : Type 0) : Type 0 where
  pub command : Command
  pub header : H
  pub body : ℕ

-- frame.New(command, key, value, ...)
unfoldable pub new_frame : {H : Type 0} → HeaderApi H → Command → List (String × String) → Frame H
new_frame api command entries = record { command = command; header = api.of_list entries; body = 0 }

abbrev pub is_message : Command → Bool
is_message message = true
is_message _ = false

abbrev pub is_error : Command → Bool
is_error error = true
is_error _ = false

-- A digit as fmt and strconv print it.
abbrev pub digit : ℕ → String
digit zero = "0"
digit (suc zero) = "1"
digit (suc (suc zero)) = "2"
digit (suc (suc (suc zero))) = "3"
digit (suc (suc (suc (suc zero)))) = "4"
digit (suc (suc (suc (suc (suc zero))))) = "5"
digit (suc (suc (suc (suc (suc (suc zero)))))) = "6"
digit (suc (suc (suc (suc (suc (suc (suc zero))))))) = "7"
digit (suc (suc (suc (suc (suc (suc (suc (suc zero)))))))) = "8"
digit _ = "9"

-- The decimal digits of a number, at most as many as the fuel, which is the number itself and one.
unfoldable pub decimal_from : ℕ → ℕ → String → String
decimal_from zero n acc = acc
decimal_from (suc fuel) n acc =
    let text = String.◌++◌ (digit (n % 10)) acc in
    elim (n / 10) [ zero ↦ text | suc m ↦ decimal_from fuel (n / 10) text ]

unfoldable pub decimal : ℕ → String
unfolding decimal_from
decimal n = decimal_from (suc n) n ""
