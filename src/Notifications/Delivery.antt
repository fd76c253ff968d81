-- ===== src/Notifications/Delivery.antt =====
-- notifications.py: `_retry_delay` and `_send`, whose three attempts meet the replies of a server.
use repowatch.Prelude.{
  ℕ, zero, suc, ◌+◌, ◌-◌, ◌*◌, ◌≤◌, ◌<◌, max, ◌≡◌, Bool, true, false, not, ◌&&◌, ◌||◌, Option, none,
  some, arith, if◌then◌else◌, ltb, leb, nat_eq,
}

-- `after` is the Retry-After header in seconds, once parsed; none if it is absent or unreadable.
-- `failed` is a network error, a bad URL or a timeout.
pub data Reply : Type 0 where
  answered : (status : ℕ) (after : Option ℕ) → Reply
  failed : Reply

abbrev power : ℕ → ℕ
power zero = 1
power (suc n) = 2 * power n

unfoldable pub retry_delay : Option ℕ → ℕ → ℕ
retry_delay none attempt = power attempt
retry_delay (some seconds) attempt = max (power attempt) seconds

abbrev pub accepts : ℕ → Bool
accepts status = leb 200 status && ltb status 300

abbrev pub retries : ℕ → Bool
retries status = nat_eq status 429 || (leb 500 status && ltb status 600)

pub record Outcome : Type 0 where
  pub delivered : Bool
  pub posts : ℕ
  pub slept : ℕ

abbrev pub stop : Bool → ℕ → ℕ → Outcome
stop delivered posts slept = record { delivered = delivered; posts = posts; slept = slept }

abbrev pub header_of : Reply → Option ℕ
header_of (answered status after) = after
header_of failed = none

abbrev pub is_accepted : Reply → Bool
is_accepted (answered status after) = accepts status
is_accepted failed = false

abbrev pub is_rejected : Reply → Bool
is_rejected (answered status after) = not (accepts status) && not (retries status)
is_rejected failed = false

-- The rounds left of `for attempt in range(3)`; `server n` is the reply to attempt n.
unfoldable pub send_from : ℕ → ℕ → (ℕ → Reply) → ℕ → Outcome
unfolding retry_delay
send_from zero attempt server slept = stop false attempt slept
send_from (suc left) attempt server slept =
    let reply = server attempt in
    let delay = retry_delay (header_of reply) attempt in
    let again = send_from left (attempt + 1) server (slept + delay) in
    if is_accepted reply
    then stop true (attempt + 1) slept
    else if is_rejected reply || nat_eq attempt 2 || ltb 30 delay
    then stop false (attempt + 1) slept
    else again

unfoldable pub send : (ℕ → Reply) → Outcome
unfolding send_from
send server = send_from 3 0 server 0

abbrev pub AsksAgain : Reply → Type 0
AsksAgain r = (is_accepted r ≡ false) × (is_rejected r ≡ false)

pub record IsBounded (server : ℕ → Reply) (o : Outcome) : Type 0 where
  pub posted : 1 ≤ o.posts
  pub posts_le : o.posts ≤ 3
  pub slept_le : o.slept ≤ 60
  pub result : o.delivered ≡ is_accepted (server (o.posts - 1))
  pub first_retried : 1 < o.posts → AsksAgain (server 0)
  pub second_retried : 2 < o.posts → AsksAgain (server 1)

-- A delivery posts one to three times and sleeps for a minute at most, succeeds exactly if the
-- reply to its last post is a 2xx, and posts again only after a reply that is neither a success
-- nor a refusal.
pub send-IsBounded : (server : ℕ → Reply) → IsBounded server (send server)
unfolding send
send-IsBounded server = ground arith
