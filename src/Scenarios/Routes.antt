-- ===== src/Scenarios/Routes.antt =====
-- The routing at concrete inputs.
use hermes_concurrent_agents.Common.{
  ℕ, String, ◌≡◌, refl, inl, inr, true, false, Option, none, some, List, [], ◌∷◌, nat_eq, string_eq,
  All, contains,
}
use hermes_concurrent_agents.Common.Words.{codes, codes_eq}
use hermes_concurrent_agents.Common.Counting.{nodup}
use hermes_concurrent_agents.StateDb.{list_runs, empty_db}
use hermes_concurrent_agents.Routing.{
  FleetConfig, SlotIdentity, reviewer, concrete_slots, resolve_role_hint, busy, reserve, route_task,
}
use hermes_concurrent_agents.Common.Words.{same_codes}
use hermes_concurrent_agents.Common.Tables.{order_desc}
use hermes_concurrent_agents.Routing.{sanitize_session_name}
use hermes_concurrent_agents.Routing.Names.{IsSessionName, sanitize-IsSessionName}
use hermes_concurrent_agents.Routing.Booking.{profile_of, IsMember, Fits, route_task-books}
use hermes_concurrent_agents.Routing.Refusals.{route_task-refuses}
use hermes_concurrent_agents.Routing.Tick.{booked, no_double_booking}

sanitize_test : sanitize_session_name (codes "--a: b/c--") ≡ codes "a-b-c"
unfolding sanitize_session_name
sanitize_test = refl

sanitize-IsSessionName_example : IsSessionName (sanitize_session_name (codes "a: b"))
sanitize-IsSessionName_example = sanitize-IsSessionName (codes "a: b")

abbrev pub fleet : FleetConfig
fleet = record { name = codes "f"; profile_slots = (codes "coder", 2) ∷ (codes "qa", 1) ∷ [] }

abbrev coder_one : List ℕ
coder_one = codes "hca-f-coder-01"

abbrev implement : Option (List ℕ)
implement = some (codes " Implement ")

coder_one_free : profile_of (route_task fleet empty_db [] "t1" implement).0 ≡ some coder_one
unfolding route_task same_codes list_runs order_desc
coder_one_free = refl

route_task-books_example :
    ((s : SlotIdentity) × ((s.profile ≡ coder_one)
        × (Fits implement s × IsMember s (concrete_slots fleet))))
    × ((contains coder_one (busy empty_db []) ≡ false)
        × ((route_task fleet empty_db [] "t1" implement).1 ≡ reserve coder_one []))
route_task-books_example =
    route_task-books fleet empty_db [] "t1" implement coder_one coder_one_free

abbrev qa_taken : List (List ℕ)
qa_taken = codes "hca-f-qa-01" ∷ []

abbrev review_hint : Option (List ℕ)
review_hint = some (codes "review")

qa_refused : profile_of (route_task fleet empty_db qa_taken "t2" review_hint).0 ≡ none
unfolding route_task same_codes list_runs order_desc
qa_refused = refl

abbrev qa_slot : SlotIdentity
qa_slot = record {
  profile = codes "hca-f-qa-01";
  fleet = codes "f";
  role = codes "qa";
  index = 1;
  kind = reviewer;
}

qa-Fits : Fits review_hint qa_slot
unfolding resolve_role_hint same_codes
qa-Fits = inr (refl, refl)

qa_configured : IsMember qa_slot (concrete_slots fleet)
unfolding concrete_slots same_codes
qa_configured = inr (inr (inl refl))

route_task-refuses_example :
    ((route_task fleet empty_db qa_taken "t2" review_hint).1 ≡ qa_taken)
    × (contains qa_slot.profile (busy empty_db qa_taken) ≡ true)
route_task-refuses_example =
    route_task-refuses fleet empty_db qa_taken "t2" review_hint qa_slot qa_refused qa-Fits
      qa_configured

abbrev tick : List (String × Option (List ℕ))
tick = ("t1", implement) ∷ ("t2", review_hint) ∷ ("t3", none) ∷ ("t4", implement) ∷ []

tick_books :
    booked fleet empty_db [] tick ≡ coder_one ∷ codes "hca-f-qa-01" ∷ codes "hca-f-coder-02" ∷ []
unfolding booked same_codes list_runs order_desc
tick_books = refl

no_double_booking_example :
    (nodup (booked fleet empty_db [] tick) ≡ true)
    × All (λ p. contains p (busy empty_db []) ≡ false) (booked fleet empty_db [] tick)
no_double_booking_example = no_double_booking fleet empty_db [] tick
