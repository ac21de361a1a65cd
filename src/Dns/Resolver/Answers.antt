-- ===== src/Dns/Resolver/Answers.antt =====
-- What `parseAnswers` takes from the records of a response.
use wadjit.Prelude.{
  ℕ, zero, suc, ◌<◌, ◌≡◌, refl, ◌∙◌, ap, sym, Option, none, some, List, [], ◌∷◌, ◌++◌, map, arith,
  ◌==◌, if◌then◌else◌, non_empty, pos, ltb, ◌&&◌, ◌||◌, ◌^◌,
}
use Prim.Native.Nat.{min}
use mathlib.Core.List.{append_assoc, append-nil, map-append}
use wadjit.Clock.{InRange}
use wadjit.GoError.{no_ttl_answer}
use wadjit.Dns.Manager.{or_default}
use wadjit.Dns.Address.{Addr}
use wadjit.Dns.Resolver.{
  ResourceRecord, Collected, extract_addr, seconds, collect, collected_answer, parse_with,
  parse_from, parse_answers,
}

-- The records that hold an address, with their TTLs.
abbrev answer_with : Option ℕ → Option Addr → List (Addr × ℕ) → List (Addr × ℕ)
answer_with none addr l = l
answer_with (some n) none l = l
answer_with (some n) (some addr) l = (addr, n) ∷ l

pub answers : List ResourceRecord → List (Addr × ℕ)
answers [] = []
answers (rr ∷ rrs) = answer_with rr.header_ttl (extract_addr rr.body) (answers rrs)

abbrev pub addrs_of : List (Addr × ℕ) → List Addr
addrs_of = map λ p. p.0

-- The lesser of two TTLs of which 0 counts as none.
pub lesser : ℕ → ℕ → ℕ
lesser zero k = k
lesser (suc n) zero = suc n
lesser (suc n) (suc k) = suc (min n k)

-- The least positive TTL in a list; 0 if there is none.
abbrev pub least_positive : List (Addr × ℕ) → ℕ
least_positive [] = 0
least_positive ((a, n) ∷ l) = lesser n (least_positive l)

lesser_assoc : (a b c : ℕ) → lesser (lesser a b) c ≡ lesser a (lesser b c)
unfolding lesser
lesser_assoc zero b c = refl
lesser_assoc (suc a) zero c = refl
lesser_assoc (suc a) (suc b) zero = refl
lesser_assoc (suc a) (suc b) (suc c) = omega arith

lesser_zeros : (a : ℕ) → lesser a 0 ≡ lesser 0 a
unfolding lesser
lesser_zeros zero = refl
lesser_zeros (suc a) = refl

lesser_bound : (a b k : ℕ) → a < k → b < k → lesser a b < k
unfolding lesser
lesser_bound zero b k h g = g
lesser_bound (suc a) zero k h g = h
lesser_bound (suc a) (suc b) k h g = omega arith

lesser_lem : (k n : ℕ) → lesser k n ≡ (if ltb 0 n && (k == 0 || ltb n k) then n else k)
unfolding lesser
lesser_lem zero zero = refl
lesser_lem (suc k) zero = ground arith
lesser_lem zero (suc n) = ground arith
lesser_lem (suc k) (suc n) = ground arith

least_snoc :
    (l : List (Addr × ℕ)) (a : Addr) (n : ℕ)
    → least_positive (l ++ (a, n) ∷ []) ≡ lesser (least_positive l) n
least_snoc [] a n = lesser_zeros n
least_snoc ((b, k) ∷ l) a n =
    ap (lesser k) (least_snoc l a n) ∙ sym (lesser_assoc k (least_positive l) n)

addrs_of-snoc :
    (l : List (Addr × ℕ)) (a : Addr) (n : ℕ) → addrs_of (l ++ (a, n) ∷ []) ≡ addrs_of l ++ a ∷ []
addrs_of-snoc l a n = map-append _ l ((a, n) ∷ [])

-- The loop's variables after the answers `l`.
abbrev after_answers : List (Addr × ℕ) → Collected
after_answers l = record {
  addrs = addrs_of l;
  min_ttl = seconds (least_positive l);
  seen_ttl = ltb 0 (least_positive l);
}

collect-after_answers :
    (l : List (Addr × ℕ)) (a : Addr) (n : ℕ)
    → collect (a ∷ []) (seconds n) (after_answers l) ≡ after_answers (l ++ (a, n) ∷ [])
unfolding collect
collect-after_answers l a n =
    ground (arith, least_snoc l a n, lesser_lem (least_positive l) n, addrs_of-snoc l a n)

parse_with-after_answers :
    (l : List (Addr × ℕ)) (h : Option ℕ) (o : Option Addr) (rest : List (Addr × ℕ))
    → (m : List (Addr × ℕ)) × (parse_with h o (after_answers l) ≡ after_answers m)
      × (m ++ rest ≡ l ++ answer_with h o rest)
unfolding parse_with
parse_with-after_answers l none o rest = (l, refl, refl)
parse_with-after_answers l (some n) none rest = (l, refl, refl)
parse_with-after_answers l (some n) (some a) rest =
    (l ++ (a, n) ∷ [], collect-after_answers l a n, append_assoc l ((a, n) ∷ []) rest)

parse_from-answers :
    (l : List (Addr × ℕ)) (rrs : List ResourceRecord)
    → parse_from (after_answers l) rrs ≡ after_answers (l ++ answers rrs)
unfolding parse_from answers
parse_from-answers l [] = ap after_answers (sym (append-nil l))
parse_from-answers l (rr ∷ rrs) =
    let (m, e, f) = parse_with-after_answers l rr.header_ttl (extract_addr rr.body) (answers rrs) in
    ap (λ c. parse_from c rrs) e ∙ parse_from-answers m rrs ∙ ap after_answers f

collected_answer-after_answers :
    (l : List (Addr × ℕ))
    → collected_answer (after_answers l) ≡ (
        if non_empty l
        then record { addrs = addrs_of l; ttl = seconds (least_positive l); err = none }
        else record { addrs = []; ttl = pos 0; err = some no_ttl_answer })
unfolding collected_answer
collected_answer-after_answers [] = refl
collected_answer-after_answers (x ∷ l) = refl

-- `parseAnswers` returns the addresses of the records that hold one, in order, with the least of
-- their positive TTLs, or 0 if none is positive; if no record holds an address it is the error that
-- no answer has a TTL.
pub parse_answers-answers :
    (rrs : List ResourceRecord)
    → parse_answers rrs ≡ (
        if non_empty (answers rrs)
        then record {
          addrs = addrs_of (answers rrs);
          ttl = seconds (least_positive (answers rrs));
          err = none;
        }
        else record { addrs = []; ttl = pos 0; err = some no_ttl_answer })
unfolding parse_answers
parse_answers-answers rrs =
    ap collected_answer (parse_from-answers [] rrs) ∙ collected_answer-after_answers (answers rrs)

-- The TTL of a header is a `uint32`; the product with a second is no overflow, and so the TTL of the
-- answer is a duration too.
abbrev pub HeadersInRange : List ResourceRecord → Type 0
HeadersInRange [] = Unit {0}
HeadersInRange (rr ∷ rrs) = (or_default rr.header_ttl 0 < 2 ^ 32) × HeadersInRange rrs

answer_with_bound :
    (h : Option ℕ) (o : Option Addr) (l : List (Addr × ℕ))
    → or_default h 0 < 2 ^ 32
    → least_positive l < 2 ^ 32
    → least_positive (answer_with h o l) < 2 ^ 32
answer_with_bound none o l h b = b
answer_with_bound (some n) none l h b = b
answer_with_bound (some n) (some a) l h b = lesser_bound n (least_positive l) _ h b

least_positive_bound :
    (rrs : List ResourceRecord) → HeadersInRange rrs → least_positive (answers rrs) < 2 ^ 32
unfolding answers
least_positive_bound [] h = omega arith
least_positive_bound (rr ∷ rrs) h =
    answer_with_bound rr.header_ttl (extract_addr rr.body) (answers rrs) h.0
      (least_positive_bound rrs h.1)

pub parse_answers-InRange :
    (rrs : List ResourceRecord) → HeadersInRange rrs → InRange (parse_answers rrs).ttl
parse_answers-InRange rrs h = rw parse_answers-answers (ground (arith, least_positive_bound rrs h))
