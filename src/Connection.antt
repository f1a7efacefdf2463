-- ===== src/Connection.antt =====
-- packages/catalog-db/src/connection.ts: the connection to MongoDB. Times are milliseconds.
pub mod Retries
mod Tests
use jhaz_imprints.Common.{
  ℕ, zero, suc, ◌+◌, ◌*◌, String, Bool, true, false, Option, none, some, List, [], ◌∷◌, ◌++◌, ◌&&◌,
  if◌then◌else◌, ltb, leb, is_some, Result, ok, err, error,
}

-- The module's variables, and what of the process they can reach: whether `connection` is set, and
-- whether its readyState is 1; when the shutdown that is counted down to comes; whether the
-- listeners are there; the waits so far; and whether process.exit(1) was called.
pub record Link : Type 0 where
  pub connection : Bool
  pub ready : Bool
  pub shutdown_at : Option ℕ
  pub listening : Bool
  pub waits : List ℕ
  pub exited : Bool

abbrev pub max_retries : ℕ
max_retries = 5

abbrev pub initial_retry_delay : ℕ
initial_retry_delay = 1000

abbrev pub power_of_two : ℕ → ℕ
power_of_two zero = 1
power_of_two (suc n) = 2 * power_of_two n

abbrev pub retry_delay : ℕ → ℕ
retry_delay attempt = initial_retry_delay * power_of_two attempt

-- mongoose.connect has succeeded: the listeners are added once.
abbrev pub established : Link → Link
established s = record s { connection = true; ready = true; listening = true }

abbrev pub is_connected : Link → Bool
is_connected s = s.connection && s.ready

abbrev pub waited : ℕ → Link → Link
waited delay s = record s { waits = s.waits ++ delay ∷ [] }

abbrev pub Attempts : Type 0
Attempts = Option (Result {0} Unit) × Link

abbrev give_up_or : Bool → String → Link → Attempts → Attempts
give_up_or true e s again = again
give_up_or false e s again = (some (err (error e)), s)

abbrev after_connect : Option String → Bool → Link → Attempts → Attempts
after_connect none may_retry s again = (some (ok tt), established s)
after_connect (some e) may_retry s again = give_up_or may_retry e s again

-- `outcome` is what mongoose.connect does at an attempt: nothing, or its error. The result is none
-- where the fuel is spent.
unfoldable pub connect_mongodb :
    (fuel : ℕ) → (ℕ → Option String) → (retry_attempt : ℕ) → Link → Attempts
connect_mongodb zero outcome attempt s = (none, s)
connect_mongodb (suc fuel) outcome attempt s =
    let again = connect_mongodb fuel outcome (suc attempt) (waited (retry_delay attempt) s) in
    if is_connected s
    then (some (ok tt), s)
    else after_connect (outcome attempt) (ltb attempt max_retries) s again

-- The listeners: a lost connection starts a countdown of 30 seconds, unless one runs; a connection
-- that is found again ends it; and at its end the process exits.
abbrev pub on_disconnected : (now : ℕ) → Link → Link
on_disconnected now s =
    if is_some s.shutdown_at
    then record s { ready = false }
    else record s { ready = false; shutdown_at = some (now + 30000) }

abbrev pub on_connected : Link → Link
on_connected s = record s { ready = true; shutdown_at = none }

abbrev due : ℕ → Option ℕ → Bool
due now none = false
due now (some time) = leb time now

abbrev pub on_timer : (now : ℕ) → Link → Link
on_timer now s = if due now s.shutdown_at then record s { exited = true } else s

-- mongoose.disconnect closes the connection, of which the listeners are told.
abbrev pub closed : (now : ℕ) → Link → Link
closed now s = if s.listening then on_disconnected now s else record s { ready = false }

unfoldable pub disconnect_mongodb : (now : ℕ) → Link → Link
disconnect_mongodb now s =
    if s.connection
    then record (closed now (record s { shutdown_at = none })) { connection = false }
    else s

abbrev pub get_mongodb_connection : Link → Result {0} Unit
get_mongodb_connection s =
    if is_connected s
    then ok tt
    else err (error "MongoDB is not connected. Call connectMongoDB() first.")
