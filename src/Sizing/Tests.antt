-- ===== src/Sizing/Tests.antt =====
-- The default flags.
use beep.Common.{◌≡◌}
use beep.Sizing.{entries, front_map_max_entries, front_map_max_entries_exact}

front_map_max_entries_exact_example : front_map_max_entries 1024 4 ≡ entries 1024 8192
front_map_max_entries_exact_example = front_map_max_entries_exact 1024 4
