-- ===== src/Examples/Work.antt =====
-- The theorems on proof of work, domain names, subtrees and ranges, at concrete inputs.
use randbotd.Base.{
  ℕ, ◌+◌, ◌-◌, ◌*◌, ◌^◌, ◌≤◌, ◌<◌, ◌≡◌, refl, ◌↔◌, true, false, ◌&&◌, some, [], ◌∷◌, map, arith,
  leb, ◌==◌, if◌then◌else◌, length,
}
use randbotd.Base.Result.{ok}
use randbotd.Base.Bytes.{Bytes, from_be_bytes, to_be_bytes}
use randbotd.Base.Text.{
  Text, codes, len, trim, split, starts_with, ends_with, is_ascii, is_ascii_alphanumeric, is_empty,
}
use randbotd.Base.{any}
use randbotd.Examples.{toy}
use randbotd.Pow.{leading_zero_bits, compute_digest, verify, solve, solve_with_changing_field}
use randbotd.Pow.Bits.{leading_zero_bits_iff}
use randbotd.Pow.Search.{IsFirst, IsSolution, solve-IsFirst, solve_with_changing_field-IsSolution}
use randbotd.Domain.{validate_domain_name}
use randbotd.Domain.Rules.{IsDomain, validate_domain_name_iff}
use randbotd.Scope.{clean_candidate, clean_subtree, is_domain_in_permitted_subtrees}
use randbotd.Scope.Subtree.{LiesInSome, is_domain_in_permitted_subtrees_iff}
use randbotd.History.{contains}
use randbotd.History.Ranges.{known_ranges_of, known_ranges_of_exact}

abbrev digest : Bytes
digest = 0 ∷ 31 ∷ 255 ∷ []

leading_zero_bits_iff_example :
    (11 ≤ leading_zero_bits digest) ↔ (from_be_bytes digest < 2 ^ (8 * length digest - 11))
leading_zero_bits_iff_example =
    leading_zero_bits_iff digest 11 (omega arith, (omega arith, (omega arith, tt))) (omega arith)
      (omega arith)

abbrev reseed : ℕ → Bytes
reseed extra = to_be_bytes 8 extra

reseed-solved : verify toy (reseed 0) 0 250 ≡ true
unfolding verify leading_zero_bits compute_digest to_be_bytes
reseed-solved = refl

solve-IsFirst_example :
    (n : ℕ) × (solve toy 5 (reseed 0) 250 ≡ some n)
    × IsFirst (λ nonce. verify toy (reseed 0) nonce 250) 0 n
solve-IsFirst_example =
    solve-IsFirst toy (reseed 0) 250 5 0 reseed-solved (omega arith) (omega arith)

solve_with_changing_field-IsSolution_example :
    (nonce : ℕ) × (extra : ℕ) × (solve_with_changing_field toy 3 250 reseed
      ≡ some (nonce, extra, reseed extra))
    × IsSolution toy 250 reseed 0 nonce extra (reseed extra)
solve_with_changing_field-IsSolution_example =
    solve_with_changing_field-IsSolution toy 250 reseed 3 0 0 reseed-solved (omega arith)
      (omega arith) (omega arith)

reseed-found : solve_with_changing_field toy 1 250 reseed ≡ some (0, 0, reseed 0)
unfolding solve_with_changing_field verify leading_zero_bits compute_digest to_be_bytes
reseed-found = refl

abbrev host : Text
host = codes " a-b.org "

validate_domain_name_iff_example : (validate_domain_name host ≡ ok tt) ↔ IsDomain (trim host)
validate_domain_name_iff_example = validate_domain_name_iff host

host-valid : validate_domain_name host ≡ ok tt
unfolding validate_domain_name len trim starts_with ends_with split is_empty is_ascii
    is_ascii_alphanumeric
host-valid = refl

-- Lower case, here of ASCII letters only.
abbrev lower : Text → Text
lower = map (λ x. if leb 65 x && leb x 90 then x + 32 else x)

is_domain_in_permitted_subtrees_iff_example :
    (is_domain_in_permitted_subtrees lower (codes "WWW.a.org") (codes ".a.org" ∷ []) ≡ true) ↔ (
      (is_empty (clean_candidate lower (codes "WWW.a.org")) ≡ false)
      × LiesInSome
          (clean_candidate lower (codes "WWW.a.org"))
          (map (clean_subtree lower) (codes ".a.org" ∷ [])))
is_domain_in_permitted_subtrees_iff_example =
    is_domain_in_permitted_subtrees_iff lower (codes "WWW.a.org") (codes ".a.org") []

known_ranges_of_exact_example :
    any (λ r. contains r 4) (known_ranges_of (5 ∷ 3 ∷ 4 ∷ 9 ∷ 4 ∷ []))
    ≡ any (λ x. x == 4) (5 ∷ 3 ∷ 4 ∷ 9 ∷ 4 ∷ [])
known_ranges_of_exact_example = known_ranges_of_exact 4 (5 ∷ 3 ∷ 4 ∷ 9 ∷ 4 ∷ [])
