-- ===== src/Value.antt =====
-- The Python values that the program's dictionaries hold. A list or a dictionary that the program
-- only carries is `json`, by its JSON text. Negative integers and floats do not occur.
use Prim.Native.String
use sarra.Common.{
  ℕ, zero, suc, ◌/◌, ◌%◌, String, Bool, true, false, not, none, some, ◌||◌, ltb, ◌==◌, str_eq,
  arith, ◌≡◌, if◌then◌else◌,
}
use sarra.Common.Dict
use sarra.Common.Dict.{Dict}

pub data Value : Type 0 where
  null : Value
  bool : Bool → Value
  int : ℕ → Value
  str : String → Value
  json : String → Value

-- bool(v)
unfoldable pub truthy : Value → Bool
truthy null = false
truthy (bool b) = b
truthy (int n) = not (n == 0)
truthy (str s) = not (str_eq s "")
truthy (json s) = not (str_eq s "{}" || str_eq s "[]")

abbrev digit : ℕ → String
digit zero = "0"
digit (suc zero) = "1"
digit (suc (suc zero)) = "2"
digit (suc (suc (suc zero))) = "3"
digit (suc (suc (suc (suc zero)))) = "4"
digit (suc (suc (suc (suc (suc zero))))) = "5"
digit (suc (suc (suc (suc (suc (suc zero)))))) = "6"
digit (suc (suc (suc (suc (suc (suc (suc zero))))))) = "7"
digit (suc (suc (suc (suc (suc (suc (suc (suc zero)))))))) = "8"
digit _ = "9"

-- The digits of a number; it has fewer of them than the fuel.
digits_of : ℕ → ℕ → String
digits_of zero n = ""
digits_of (suc fuel) n =
    let front = digits_of fuel (n / 10) in
    if ltb n 10 then digit n else String.◌++◌ front (digit (n % 10))

-- str(n)
unfoldable pub show : ℕ → String
unfolding digits_of
show n = digits_of (suc n) n

-- str(v)
unfoldable pub to_text : Value → String
unfolding show
to_text null = "None"
to_text (bool true) = "True"
to_text (bool false) = "False"
to_text (int n) = show n
to_text (str s) = s
to_text (json s) = s

-- str(d.get(k))
unfoldable pub text_at : Dict Value → String → String
text_at d k = elim (Dict.get d k) [ none ↦ "None" | some v ↦ to_text v ]

-- str(d.get(k) or "")
unfoldable pub text_or_empty : Dict Value → String → String
text_or_empty d k = elim (Dict.get d k) [ none ↦ "" | some v ↦ if truthy v then to_text v else "" ]

pub text_at-put :
    (d : Dict Value) (k : String) (v : Value) (j : String)
    → text_at (Dict.put d k v) j ≡ (if str_eq k j then to_text v else text_at d j)
unfolding text_at
text_at-put d k v j = ground (arith, Dict.get-put d k v j)

pub text_at-remove :
    (d : Dict Value) (k j : String)
    → text_at (Dict.remove d k) j ≡ (if str_eq k j then "None" else text_at d j)
unfolding text_at
text_at-remove d k j = ground (arith, Dict.get-remove d k j)

pub text_or_empty-put :
    (d : Dict Value) (k : String) (v : Value) (j : String)
    → text_or_empty (Dict.put d k v) j
      ≡ (if str_eq k j then (if truthy v then to_text v else "") else text_or_empty d j)
unfolding text_or_empty
text_or_empty-put d k v j = ground (arith, Dict.get-put d k v j)
