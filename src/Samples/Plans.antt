-- ===== src/Samples/Plans.antt =====
-- The small plan, sorted.
use glassrail.Common.{
  [], add, count, elem, filter, insert, int_leb, lookup, ok, pos, refl, sort, ℤ, ◌↔◌, ◌≡◌, ◌≤◌,
  int_eq,
}
use glassrail.Core.{is_type}
use glassrail.Validator.Topo.{ids, topo_sort, degree, edge_beq}
use glassrail.Validator.Topo.Edges.{DependsOn}
use glassrail.Validator.Topo.Order.{IsTopological, topo_sort_sound}
use glassrail.Executor.Plans.{deps_at, dependency_map}
use glassrail.Executor.Scheduler.Deps.{dependency_map_iff}
use glassrail.Samples.{plan_nodes, plan_order}

pub plan_sorts : topo_sort plan_nodes ≡ ok plan_order
unfolding topo_sort is_type elem sort filter degree lookup add edge_beq insert int_leb
plan_sorts = refl

topo_sort_sound_example :
    ((i : ℤ) → count i plan_order ≡ count i (ids plan_nodes))
    × ((i : ℤ) → count i (ids plan_nodes) ≤ 1)
    × IsTopological plan_nodes [] plan_order
topo_sort_sound_example = topo_sort_sound plan_nodes plan_order plan_sorts

dependency_map_iff_example :
    (1 ≤ count (pos 1) (deps_at (dependency_map plan_nodes) (pos 3)))
    ↔ DependsOn plan_nodes (pos 1) (pos 3)
unfolding count
dependency_map_iff_example = dependency_map_iff plan_nodes (pos 1) (pos 3) refl
