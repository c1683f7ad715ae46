-- ===== src/LogService.antt =====
-- services/logs_service.py: the audit log. `describe` is Python's `str` of an exception.
use mikrotik.Prelude.{ℕ, String, Option, none, List, map}
use mikrotik.Models.{Log}
use mikrotik.World.{App, Exn, http, pure, raise, catch, commit, with_session, ◌>>=◌, ◌>>◌}
use mikrotik.Crud.{create_log, get_logs}

pub record LogView : Type 0 where
  pub id : ℕ
  pub level : String
  pub event_type : Option String
  pub description : String
  pub phone_number : Option String
  pub timestamp : ℕ

unfoldable pub log_view : Log → LogView
log_view log = record {
  id = log.id;
  level = log.level;
  event_type = log.event_type;
  description = log.description;
  phone_number = log.phone_number;
  timestamp = log.timestamp;
}

-- `except Exception as e`
unfoldable pub bad_request : {A : Type 0} → (Exn → String) → Exn → App A
bad_request describe e = raise (http 400 (describe e))

unfoldable pub create_log_entry :
    (Exn → String) → String → Option String → Option ℕ → App (Unit {0})
unfolding bad_request
create_log_entry describe description phone_number router_id = with_session (
    catch (do create_log description phone_number router_id "info" none; commit)
      (bad_request describe))

unfoldable pub list_logs : (Exn → String) → Option ℕ → App (List LogView)
unfolding log_view bad_request
list_logs describe router_id =
    with_session
      (catch (do logs ← get_logs router_id; pure (map log_view logs)) (bad_request describe))
