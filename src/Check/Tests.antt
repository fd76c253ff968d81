-- ===== src/Check/Tests.antt =====
-- A check whose download fails.
use repowatch.Prelude.{refl, true, false, none, []}
use repowatch.Storage.Cache.Tests.{db}
use repowatch.Check.{Repo, Env, State, fetch_error, unknown_expiry, check_index}
use repowatch.Check.Errors.{SameCatalog, WarmsNone, is_unread, check_index-SameCatalog}

abbrev core : Repo
core = record {
  id = "core";
  type = "pacman";
  upstream = "https://geo.mirror.pkgbuild.com/core/os/x86_64";
  identity = "arch";
  prefetch = true;
  verify_signature = false;
  has_keyring = false;
  nix_public_keys = [];
}

abbrev env : Env
env = record {
  now = 90;
  new_id = λ key. key;
  check_head = λ previous. none;
  fetch = fetch_error;
  signing_key_expiry = λ signers. unknown_expiry;
  settings = record { notify_webhook_url = none; notify_events = []; notify_after_failures = 3 };
  key_expiry_warning_days = 14;
  message = λ expires_at. "";
  delivered = false;
}

abbrev state : State
state = record { db = db; notices = record { table = []; sent = [] } }

check_index-SameCatalog_example :
    SameCatalog (check_index env core state).1.db db × WarmsNone (check_index env core state).0
unfolding is_unread
check_index-SameCatalog_example = check_index-SameCatalog env core state refl
