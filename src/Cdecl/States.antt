-- ===== src/Cdecl/States.antt =====
-- The states of c_code/expert_c/cdecl2.c.
use Prim.Native.String.{String}
use somenote.Common.{
  ℕ, zero, suc, Bool, true, false, ◌&&◌, List, [], ◌∷◌, ◌++◌, ◌==◌, leb, ltb, length, get_or,
}
use somenote.Libc.Int.{ℤ, pos, negsuc}
use somenote.Libc.Text.{codes, text}
use somenote.Libc.Decimal.{atol}
use somenote.Libc.Scan.{show_int}
use somenote.Libc.Effect.{undefined, out_of_fuel, Cmd, pure, ◌>>=◌, ◌>>◌, get, modify, fit}
use somenote.Cdecl.Token.{maxtokens, identifier, qualifier, Token, Reader, gettoken}

-- What `nextstate` points to: a function, or nothing.
pub data State : Type 0 where
  initial get_array get_params get_lparen get_ptr_part get_type null : State

-- `printf("%s ", s)`
unfoldable pub print_word : List ℕ → Cmd Reader (Unit {0})
print_word s = modify λ r. record r { output = r.output ++ text s ++ 32 ∷ [] }

abbrev print_text : String → Cmd Reader (Unit {0})
print_text t = modify λ r. record r { output = r.output ++ codes t }

unfoldable pub push : Token → Cmd Reader (Unit {0})
push t = do
  r ← get
  fit (ltb (length r.stack) maxtokens)
  modify λ r'. record r' { stack = t ∷ r'.stack }

-- `n - 1` of an int
less_one : ℤ → ℤ
less_one (pos zero) = negsuc 0
less_one (pos (suc n)) = pos n
less_one (negsuc n) = negsuc (suc n)

-- `isdigit(this.string[0])`
unfoldable pub is_number : Token → Bool
is_number t = let c = get_or t.string 0 0 in leb 48 c && leb c 57

-- `while(this.type != IDENTIFIER)`
unfoldable pub push_loop : ℕ → Cmd Reader (Unit {0})
push_loop zero = λ _. out_of_fuel
push_loop (suc f) = do
  s ← get
  elim (s.this.type == identifier) [
    | true ↦ pure tt
    | false ↦ do push s.this; gettoken; push_loop f
  ]

-- The first token, and the loop.
abbrev pub to_name : ℕ → Cmd Reader (Unit {0})
to_name f = do gettoken; push_loop f

unfoldable pub run_initial : ℕ → Cmd Reader State
run_initial f = do
  to_name f
  s ← get
  modify λ r. record r { output = r.output ++ text s.this.string ++ codes " is " }
  gettoken
  pure get_array

-- `printf("0..%d ", n - 1)`
pub bound_text : ℤ → List ℕ
bound_text n = codes "0.." ++ show_int (less_one n) ++ 32 ∷ []

-- `if(isdigit(this.string[0]))`
unfoldable pub print_bound : Cmd Reader (Unit {0})
print_bound = do
  s ← get
  elim (is_number s.this) [
    | false ↦ pure tt
    | true ↦ do
      modify λ r. record r { output = r.output ++ bound_text (atol s.this.string) }
      gettoken
  ]

-- The body of the loop of `get_array`.
unfoldable pub one_array : Cmd Reader (Unit {0})
one_array = do print_text "array "; gettoken; print_bound; gettoken; print_text "of "

-- `while(this.type == '[')`, with the state that is next if there is no array
unfoldable pub array_loop : ℕ → State → Cmd Reader State
array_loop zero next = λ _. out_of_fuel
array_loop (suc f) next = do
  s ← get
  elim (s.this.type == b'[') [ true ↦ do one_array; array_loop f get_lparen | false ↦ pure next ]

-- `while(this.type != ')')`
unfoldable pub params_loop : ℕ → Cmd Reader (Unit {0})
params_loop zero = λ _. out_of_fuel
params_loop (suc f) = do
  s ← get
  elim (s.this.type == b')') [ true ↦ pure tt | false ↦ do gettoken; params_loop f ]

unfoldable pub run_params : ℕ → Cmd Reader State
run_params f = do
  s ← get
  elim (s.this.type == b'(') [
    | false ↦ pure get_lparen
    | true ↦ do params_loop f; gettoken; print_text "function returning  "; pure get_lparen
  ]

unfoldable pub lparen_on : List Token → Cmd Reader State
lparen_on [] = pure get_ptr_part
lparen_on (t ∷ ts) = elim (t.type == b'(') [
  | false ↦ pure get_ptr_part
  | true ↦ do modify λ r. record r { stack = ts }; gettoken; pure get_array
]

-- The top of an empty stack is read before the array.
unfoldable pub ptr_part_on : List Token → Cmd Reader State
ptr_part_on [] = λ _. undefined
ptr_part_on (t ∷ ts) = elim (t.type == b'*') [
  | true ↦ do print_text "pointer to "; modify λ r. record r { stack = ts }; pure get_lparen
  | false ↦ elim (t.type == qualifier) [
    | true ↦ do modify λ r. record r { stack = ts }; print_word t.string; pure get_lparen
    | false ↦ pure get_type
  ]
]

-- `while(top >= 0)`
unfoldable pub type_loop : List Token → Cmd Reader (Unit {0})
type_loop [] = pure tt
type_loop (t ∷ ts) = do modify λ r. record r { stack = ts }; print_word t.string; type_loop ts

-- `(*nextstate)()`, with the state that it leaves
unfoldable pub run_state : ℕ → State → Cmd Reader State
run_state f initial = run_initial f
run_state f get_array = array_loop f get_params
run_state f get_params = run_params f
run_state f get_lparen = do s ← get; lparen_on s.stack
run_state f get_ptr_part = do s ← get; ptr_part_on s.stack
run_state f get_type = do
  s ← get
  type_loop s.stack
  modify λ r. record r { output = r.output ++ 10 ∷ [] }
  pure null
run_state f null = pure null

unfoldable pub is_null : State → Bool
is_null initial = false
is_null get_array = false
is_null get_params = false
is_null get_lparen = false
is_null get_ptr_part = false
is_null get_type = false
is_null null = true

-- `while(nextstate != NULL)`
unfoldable pub state_loop : ℕ → ℕ → State → Cmd Reader (Unit {0})
state_loop zero f st = λ _. out_of_fuel
state_loop (suc g) f st = elim (is_null st) [
  | true ↦ pure tt
  | false ↦ do next ← run_state f st; state_loop g f next
]

-- `main`, with `g` rounds for its loop and `f` rounds for each loop of a state
unfoldable pub main : ℕ → ℕ → Cmd Reader (Unit {0})
main g f = state_loop g f initial
