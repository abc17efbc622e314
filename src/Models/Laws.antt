-- ===== src/Models/Laws.antt =====
-- The stored text of an event status, src/db/models.rs.
use aether_relay.Prelude.{String, ◌≡◌, refl, ap, ◌↔◌, some, arith, eq_iff}
use aether_relay.Models.{EventStatus, received, processing, delivered, failed, as_str, from_str}

from_str-as_str : (st : EventStatus) → from_str (as_str st) ≡ some st
unfolding from_str as_str
from_str-as_str received = refl
from_str-as_str processing = refl
from_str-as_str delivered = refl
from_str-as_str failed = refl

as_str_of_from_str : (s : String) (st : EventStatus) → from_str s ≡ some st → s ≡ as_str st
unfolding from_str as_str
as_str_of_from_str s st h =
    ground
      (arith, eq_iff s "RECEIVED", eq_iff s "PROCESSING", eq_iff s "DELIVERED", eq_iff s "FAILED")

-- A text is read as a status exactly when it is the text that the status is stored as; in particular
-- a status that is written comes back, and two statuses are never stored as one text.
pub from_str_iff : (s : String) (st : EventStatus) → (from_str s ≡ some st) ↔ (s ≡ as_str st)
from_str_iff s st = (as_str_of_from_str s st, λ e. rw e (from_str-as_str st))

pub as_str-injective : (a b : EventStatus) → as_str a ≡ as_str b → a ≡ b
as_str-injective a b h = ground (arith, from_str-as_str a, from_str-as_str b, ap from_str h)
