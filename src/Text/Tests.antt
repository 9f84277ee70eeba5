-- ===== src/Text/Tests.antt =====
-- Texts, for the witnesses.
use gfwproxy.Base.{ℕ, ◌≡◌, ◌↔◌, none, some, List, [], ◌∷◌, arith, if◌then◌else◌}
use Prim.Native.Nat.{Ordering}
use gfwproxy.Text.{atoi, safe_utoa, string_compare}
use gfwproxy.Text.Number.{decimal, is_number, as_int, atoi_lem, atoi-safe_utoa}
use gfwproxy.Text.Order.{string_compare_iff}

abbrev year : List ℕ
year = b'2' ∷ b'0' ∷ b'2' ∷ b'4' ∷ []

atoi_lem_example : atoi year ≡ (if is_number year then as_int (decimal year 0) else none)
atoi_lem_example = atoi_lem year

atoi-safe_utoa_example : atoi (safe_utoa 10 22122) ≡ some 22122
atoi-safe_utoa_example = atoi-safe_utoa 22122 (omega arith)

string_compare_iff_example : (string_compare year year ≡ Ordering.eq) ↔ (year ≡ year)
string_compare_iff_example =
    string_compare_iff year year (omega arith, (omega arith, (omega arith, (omega arith, tt))))
