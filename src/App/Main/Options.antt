-- ===== src/App/Main/Options.antt =====
-- src/app/main.cpp: the options among the arguments.
use cpp_reactor.Base.{
  ◌≡◌, refl, sym, ap, ◌∙◌, subst, codes, same_iff, Bool, true, false, ◌||◌, Option, none, some,
  List, [], ◌∷◌, ◌++◌, append-nil, append_assoc, Bytes, if◌then◌else◌, Bool-cases, inl, inr,
}
use cpp_reactor.App.Main.{is_sql_option, is_help, read_args}

abbrev pub any : (Bytes → Bool) → List Bytes → Bool
any p [] = false
any p (x ∷ xs) = p x || any p xs

-- The arguments that are not the option that enables the SQL routes.
abbrev pub others : List Bytes → List Bytes
others [] = []
others (x ∷ xs) = if is_sql_option x then others xs else x ∷ others xs

-- The two tests exclude each other.
sql-not-help : (x : Bytes) → is_sql_option x ≡ true → is_help x ≡ false
sql-not-help x h =
    subst (λ y. is_help y ≡ false) (sym ((same_iff x (codes "--enable-sql")).0 h)) refl

or_true : (b : Bool) → b || true ≡ true
or_true true = refl
or_true false = refl

or_false : (b : Bool) → b ≡ b || false
or_false true = refl
or_false false = refl

-- What the loop leaves, given whether help is asked for.
abbrev pub outcome : Bool → Bool → List Bytes → Option (Bool × List Bytes)
outcome help enable_sql args = if help then none else some (enable_sql, args)

if-outcome :
    (b help enable_sql : Bool) (args : List Bytes) (kept : Option (Bool × List Bytes))
    → kept ≡ outcome help enable_sql args
    → (if b then none else kept) ≡ outcome (b || help) enable_sql args
if-outcome true help enable_sql args kept h = refl
if-outcome false help enable_sql args kept h = h

read_args-outcome :
    (xs : List Bytes) (enable_sql : Bool) (args : List Bytes)
    → read_args xs enable_sql args
      ≡ outcome (any is_help xs) (enable_sql || any is_sql_option xs) (args ++ others xs)
unfolding read_args
read_args-outcome [] enable_sql args =
    ap (λ b. some (b, args)) (or_false enable_sql)
    ∙ ap (λ ys. some (enable_sql || false, ys)) (sym (append-nil args))
read_args-outcome (x ∷ xs) enable_sql args = elim (Bool-cases (is_sql_option x)) [
  | inl t ↦
      let e : is_help x || any is_help xs ≡ any is_help xs =
        ap (λ b. b || any is_help xs) (sql-not-help x t) in
      rw (t, e)
        (read_args-outcome xs true args
          ∙ ap (λ b. outcome (any is_help xs) b (args ++ others xs)) (sym (or_true enable_sql)))
  | inr f ↦ rw f (
      if-outcome (is_help x) (any is_help xs) (enable_sql || any is_sql_option xs) _ _ (
        read_args-outcome xs enable_sql (args ++ x ∷ [])
        ∙ ap (outcome (any is_help xs) (enable_sql || any is_sql_option xs))
            (append_assoc args (x ∷ []) (others xs))))
]

-- The program reads its arguments so that help wins wherever it stands; otherwise the SQL routes are
-- enabled exactly if the option for them stands somewhere, and the other arguments keep their order.
pub read_args_lem :
    (xs : List Bytes)
    → read_args xs false []
      ≡ (if any is_help xs then none else some (any is_sql_option xs, others xs))
read_args_lem xs = read_args-outcome xs false []
