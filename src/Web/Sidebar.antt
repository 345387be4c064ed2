-- ===== src/Web/Sidebar.antt =====
-- The navigation of apps/web/src/components/sidebar.tsx, and which queries
-- apps/web/src/lib/trpc.ts tries again.
use mikrotikbandwidthmonitor.Prelude.{
  ltb, ◌==◌, if◌then◌else◌, some, ◌&&◌, [], ℕ, false, true, ◌||◌, none, ◌++◌, Option, ◌∷◌, Bool,
  List,
}
use mikrotikbandwidthmonitor.Prelude.Bytes.{Text, codes, text_eq}

-- `navItems`, their labels and addresses
abbrev pub nav_items : List (Text × Text)
nav_items =
    (codes "Devices", codes "/devices")
    ∷ (codes "Monitoring", codes "/monitoring")
    ∷ (codes "Alerts", codes "/alerts")
    ∷ (codes "Settings", codes "/settings")
    ∷ []

-- `s.startsWith(prefix)`
unfoldable pub starts_with_text : (prefix s : Text) → Bool
starts_with_text [] s = true
starts_with_text (c ∷ prefix) [] = false
starts_with_text (c ∷ prefix) (d ∷ s) = c == d && starts_with_text prefix s

-- `isActive`
unfoldable pub is_active : (pathname href : Text) → Bool
unfolding starts_with_text text_eq
is_active pathname href = text_eq pathname href || starts_with_text (href ++ codes "/") pathname

-- The items that are shown as active
unfoldable pub active_items : (pathname : Text) → List (Text × Text) → List Text
unfolding is_active
active_items pathname [] = []
active_items pathname ((label, href) ∷ items) =
    let later = active_items pathname items in
    if is_active pathname href then label ∷ later else later

-- `retry`: an answer with a status below 500 is final, anything else is tried twice more.
unfoldable pub retry : (failure_count : ℕ) → (http_status : Option ℕ) → Bool
retry failure_count none = ltb failure_count 2
retry failure_count (some status) = if ltb status 500 then false else ltb failure_count 2
