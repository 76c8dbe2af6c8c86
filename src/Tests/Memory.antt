-- ===== src/Tests/Memory.antt =====
-- Examples for memory items.
use universal_agent_memory.Prelude.{◌≡◌, refl, true, none, some}
use universal_agent_memory.Text.{text, is_space, is_blank}
use universal_agent_memory.Domain.Errors.{ok, err, value_error}
use universal_agent_memory.Domain.Kinds.{pinned}
use universal_agent_memory.Domain.Memory.{MemoryItem, post_init, supersede}
use universal_agent_memory.Domain.Memory.Laws.{IsWellFormed, post_init_iff}
use universal_agent_memory.Domain.Records.{event_post_init, audit_post_init}
use universal_agent_memory.Tests.Samples.{sample, happening, audit}

abbrev first : MemoryItem
first = sample 1 1 none

abbrev pinned_outside_core : MemoryItem
pinned_outside_core = record first { status = pinned }

blank_after_strip : is_blank (text " \t\n") ≡ true
unfolding is_blank is_space
blank_after_strip = refl

accepts_first : post_init first ≡ ok first
unfolding post_init is_blank is_space
accepts_first = refl

refuses_pinned :
    post_init pinned_outside_core ≡ err (value_error "pinned memory must live in the core layer")
unfolding post_init is_blank is_space
refuses_pinned = refl

accepts_event : event_post_init (happening 5) ≡ ok (happening 5)
unfolding event_post_init
accepts_event = refl

accepts_audit : audit_post_init audit ≡ ok audit
unfolding audit_post_init is_blank is_space
accepts_audit = refl

first-IsWellFormed : IsWellFormed first
first-IsWellFormed = ((post_init_iff first first).0 accepts_first).0

abbrev second : MemoryItem
second = record first {
  id = 2;
  text = text "coffee";
  created_at = 20;
  revision = 2;
  supersedes_id = some 1;
}

supersedes : supersede first (text "coffee") none none 2 20 ≡ ok second
unfolding supersede post_init is_blank is_space
supersedes = refl
