-- ===== src/Server/History.antt =====
-- src/index.ts: the callback of the tool query_history. The wordings of its message are one
-- constructor each.
use omnibase.Prelude.{
  ℕ, ◌≡◌, refl, Bool, true, false, Option, none, some, List, [], ◌∷◌, length, or_else,
}
use omnibase.Text.{Text}
use omnibase.Values.{Value}
use omnibase.Types.{jsonl, plain, AuditConfig, OmnibaseConfig}
use omnibase.Exec.{ok, Exec, pure, catch, ◌>>=◌}
use omnibase.Session.{AuditStatus}
use omnibase.Audit.{Host, Disk, Logger, ReadOptions, read_entries}
use omnibase.Server.{Response, answered, error_response}

pub data Message : Type 0 where
  audit_disabled no_match nothing_executed : Message

pub data History : Type 0 where
  no_history : Message → History
  entries_found : List Value → ℕ → History

-- The configuration of the logger where there is none.
abbrev pub no_audit : AuditConfig
no_audit = record { enabled = false; path = []; format = jsonl; max_entries = 0 }

-- `connection || status`
abbrev pub has_filters : Option Text → Option AuditStatus → Bool
has_filters connection (some status) = true
has_filters none none = false
has_filters (some []) none = false
has_filters (some (c ∷ s)) none = true

abbrev pub message_for : Bool → Bool → Message
message_for false filters = audit_disabled
message_for true true = no_match
message_for true false = nothing_executed

-- What is shown of the entries, in a configuration that audits.
abbrev pub shown : Bool → ReadOptions → List Value → History
shown enabled options [] =
    no_history (message_for enabled (has_filters options.connection options.status))
shown enabled options (e ∷ entries) = entries_found (e ∷ entries) (length (e ∷ entries))

module _ {W : Type 0} (host : Host) (disk : Disk W) where
  unfoldable pub call_query_history :
      OmnibaseConfig → ReadOptions → Exec (Logger W) (Response History)
  call_query_history config options =
      let audit = or_else config.audit no_audit in
      catch
        (read_entries host disk audit options >>= λ entries.
          pure (answered (shown audit.enabled options entries)))
        (λ e. pure (error_response e))

  -- In the text format the tool says that nothing was executed, whatever the log holds.
  text_history-says_nothing :
      (config : OmnibaseConfig) (audit : AuditConfig) (options : ReadOptions) (s : Logger W)
      → config.audit ≡ some audit
      → audit.enabled ≡ true
      → audit.format ≡ plain
      → options.connection ≡ none
      → options.status ≡ none
      → call_query_history config options s ≡ (ok (answered (no_history nothing_executed)), s)
  unfolding call_query_history read_entries
  text_history-says_nothing config audit options s is on text all_connections all_states =
      rw is (rw on (rw text (rw all_connections (rw all_states refl))))
