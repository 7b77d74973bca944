-- ===== src/Server/Chaos.antt =====
-- When a reply over TCP stops the server, and when it is turned into a refusal (check_for_shutdown of
-- src/servers.rs).
use goatns.Prelude.{
  Bool, true, false, not, Option, none, some, ◌≡◌, ◌≢◌, ◌↔◌, refl, sym, ap, ◌∙◌, inl, inr, ==_iff,
  Bool-cases, ok, err, equal, equal_iff, utf8_error, if◌then◌else◌,
}
use goatns.Enums.{RecordClass, class_to_u16, class_from_u16}
use goatns.Enums.Laws.{class_from_u16-class_to_u16}
use goatns.Question.{Question}
use goatns.Reply.{Reply}
use goatns.Server.{
  shutdown, is_chaos, refused, shut_down, refusal, consent, check_question, check_asked,
  check_for_shutdown,
}
use goatns.Utf8.{is_utf8}

-- The reply is to the question CHAOS `shutdown`.
abbrev pub AsksShutdown : Reply → Type 0
AsksShutdown r =
    (q : Question) × (r.question ≡ some q) × (q.qclass ≡ RecordClass.chaos) × (q.qname ≡ shutdown)

is_chaos-chaos : (c : RecordClass) → is_chaos c ≡ true → c ≡ RecordClass.chaos
is_chaos-chaos c e =
    sym (class_from_u16-class_to_u16 c)
    ∙ ap class_from_u16 ((==_iff (class_to_u16 c) (class_to_u16 RecordClass.chaos)).0 e)
    ∙ class_from_u16-class_to_u16 RecordClass.chaos

pub not_chaos : (c : RecordClass) → c ≢ RecordClass.chaos → is_chaos c ≡ false
not_chaos c h = elim (Bool-cases (is_chaos c)) [
  | inr e ↦ e
  | inl e ↦ absurd (h (is_chaos-chaos c e))
]

-- The tests of check_for_shutdown, in their order.
only_branch :
    (chaos utf8 named allowed : Bool) (nay yea r : Reply)
    → (if not chaos
        then ok (refused nay)
        else if not utf8
        then err utf8_error
        else if not named
        then ok (refused nay)
        else if allowed
        then ok (shut_down yea)
        else ok (refused nay))
      ≡ ok (shut_down r)
    → (allowed ≡ true) × (chaos ≡ true) × (named ≡ true) × (r ≡ yea)
only_branch true true true true nay yea r e = (refl, refl, refl, cc)
only_branch _ _ _ _ nay yea r e = cc

check_question-shut_down :
    (q : Question) (r r' : Reply) (allowed : Bool)
    → check_question q r allowed ≡ ok (shut_down r')
    → (allowed ≡ true) × (q.qclass ≡ RecordClass.chaos) × (q.qname ≡ shutdown) × (r' ≡ consent r)
unfolding check_question
check_question-shut_down q r r' allowed e =
    let (a, c, n, same) =
      only_branch (is_chaos q.qclass) (is_utf8 q.qname) (equal q.qname shutdown) allowed (refusal r)
        (consent r) r' e in
    (a, is_chaos-chaos q.qclass c, (equal_iff q.qname shutdown).0 n, same)

check_question-yes :
    (q : Question) (r : Reply)
    → q.qclass ≡ RecordClass.chaos
    → q.qname ≡ shutdown
    → check_question q r true ≡ ok (shut_down (consent r))
unfolding check_question is_utf8 equal
check_question-yes q r c n = rw (c, n) refl

check_asked-shut_down :
    (asked : Option Question) (r r' : Reply) (allowed : Bool)
    → check_asked asked r allowed ≡ ok (shut_down r')
    → (q : Question) × (asked ≡ some q) × (check_question q r allowed ≡ ok (shut_down r'))
unfolding check_asked
check_asked-shut_down none r r' allowed e = cc
check_asked-shut_down (some q) r r' allowed e = (q, refl, e)

-- A reply stops the server exactly where shutting down is allowed and the question was CHAOS
-- `shutdown`, and then `OK` is added to its answers.
pub check_for_shutdown_iff :
    (r r' : Reply) (allowed : Bool)
    → (check_for_shutdown r allowed ≡ ok (shut_down r'))
      ↔ ((allowed ≡ true) × AsksShutdown r × (r' ≡ consent r))
unfolding check_for_shutdown check_asked
check_for_shutdown_iff r r' allowed = (
  λ e.
      (let (q, asks, e') = check_asked-shut_down r.question r r' allowed e in
        let (a, c, n, same) = check_question-shut_down q r r' allowed e' in
        (a, (q, asks, c, n), same)),
  λ h.
      (let (q, asks, c, n) = h.1 in
        ap (λ o. check_asked o r allowed) asks
        ∙ ap (check_question q r) h.0
        ∙ check_question-yes q r c n
        ∙ ap (λ x. ok (shut_down x)) (sym h.2)),
)

check_asked-refuses :
    (asked : Option Question) (r : Reply) (allowed : Bool)
    → ((q : Question) → asked ≡ some q → q.qclass ≢ RecordClass.chaos)
    → check_asked asked r allowed ≡ ok (refused (refusal r))
unfolding check_asked check_question
check_asked-refuses none r allowed h = refl
check_asked-refuses (some q) r allowed h = rw (not_chaos q.qclass (h q refl)) refl

-- A reply to a question that is not CHAOS, or to none, is turned into a refusal: its code becomes
-- Refused and `NO` is added to its answers, whatever it said.
pub check_for_shutdown_refuses :
    (r : Reply) (allowed : Bool)
    → ((q : Question) → r.question ≡ some q → q.qclass ≢ RecordClass.chaos)
    → check_for_shutdown r allowed ≡ ok (refused (refusal r))
unfolding check_for_shutdown
check_for_shutdown_refuses r allowed h = check_asked-refuses r.question r allowed h
