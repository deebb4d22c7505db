-- ===== src/Database/Columns.antt =====
-- Reading a value by the name of its column.
use net_serve.Prelude.{
  ℕ, ◌+◌, ◌≡◌, ap, false, some, List, [], ◌∷◌, ◌++◌, Bytes, length, All, str_eq, str_eq_refl, arith,
}
use net_serve.Config.Store.{ℤ, pos}
use net_serve.Database.{Row, Answer, find_column, get_value, get_value_by_name}

find_column-append :
    (i : ℕ) (n : Bytes) (ks ls : List Bytes)
    → All (λ k. str_eq k n ≡ false) ks
    → find_column i n (ks ++ n ∷ ls) ≡ some (i + length ks)
unfolding find_column
find_column-append i n [] ls a = ground (arith, str_eq_refl n)
find_column-append i n (k ∷ ks) ls (e, a) = ground (arith, find_column-append (i + 1) n ks ls a)

-- `db_get_value_by_name` reads, in any row, the place at which the first column of this name stands
-- in the first row.
pub get_value_by_name_first :
    (a : Answer) (r : Row) (rs : List Row) (i : ℤ) (n : Bytes) (ks ls : List Bytes)
    → a.rows ≡ r ∷ rs
    → r.columns ≡ ks ++ n ∷ ls
    → All (λ k. str_eq k n ≡ false) ks
    → get_value_by_name a i n ≡ get_value a i (pos (length ks))
unfolding get_value_by_name
get_value_by_name_first a r rs i n ks ls e f h =
    ground (arith, find_column-append 0 n ks ls h, ap (λ c. find_column 0 n c) f)
