-- ===== src/Lib.antt =====
-- Verification of the core of the TROPEK web interface (ui/src).
--
-- The interface shows how builds and assets fare against their service level objectives (SLOs). The
-- API sends evaluations, heatmap rows, bindings and groups; mappers turn them into the domain's
-- types; builders turn those into the trees of the registry's sidebar and the grids of the heatmaps;
-- the charts draw them, with labels for the notes and one tooltip at a time.
--
-- Prelude    shared names: tests on numbers, options (`??`, `?.`), lists.
-- Js         what the code uses of JavaScript: maps with insertion order, `new Set` and filters by a
--            set of keys (Unique), lists by key (MultiMap), texts, the stable sort. Floating-point
--            numbers are a parameter with no laws (Number).
-- Results    the unions of outcomes.
-- TimeRange  ui/src/lib/time-range-context.tsx and search-params.ts. TimeRange: the formats of the
--            URL. Provider: TimeRangeProvider as a state of the URL, the storage and the last render;
--            Params, Sessions, Choices, Dated and Seeding are about it.
-- Entities   the domain types and mappers of ui/src/features/assets, slos, slis, datasources,
--            slo-groups and change-points. Members: features/assets/utils.ts and countLeafMembers of
--            features/navigator/components/treeUtils.ts.
-- Actions    ui/src/features/evaluations/components/actions. Scope: slo-scope/useSloScope.ts. Batch:
--            run-batch.ts. Forms: the forms of the actions, useReasonAuthor.ts and
--            invalidate-column-queries.ts. ReEvaluate: ReEvaluateForm.tsx.
-- QueryKeys  ui/src/lib/queryKeys.ts.
-- Forms      ui/src/features/registry/forms, the wizard of an SLO. Criteria: criteriaUtils.ts. Tags:
--            tagUtils.ts. Rows: WizardStepIndicators.tsx. PickSli: WizardStepPickSli.tsx. Methods:
--            MethodCriteriaTable.tsx. Comparison: WizardStepComparison.tsx. Wizard: SloWizard.tsx.
-- Registry   ui/src/features/registry/useRegistryTree.ts. Bindings: buildSloGroupMap, mergeBindings.
--            SloTree: buildSloTree, buildSloSections, buildDatasourceTree. AssetTree: buildAssetTree.
--            Filter: filterTree. Names reads the names of a tree back, for the statements.
-- Navigator  ui/src/features/navigator. MiniView: overallScoreToMiniView and sloGroupToMiniView of
--            mappers.ts. GroupData: buildGroupHeatmapData and buildGroupScoreData of utils.ts.
-- Charts     Tooltip: ui/src/components/charts/tooltipWatchdog.ts, and in Page the browser page around
--            it. Labels: ui/src/lib/chartAnnotations.ts, the places and the texts of the note labels
--            (Notes: from the notes to the marks).
-- Evaluations  ui/src/features/evaluations. Domain and Dto: domain.ts and the records of
--            generated/api.ts. Mappers, Requests and Inputs: mappers.ts. Categories:
--            ui/src/features/note-categories. Hooks: useTabState.ts and
--            useMasterOverride.ts. Trend: the targets of useMetricTrendState.ts.
-- MetaTimeline  ui/src/features/meta_timeline: mappers.ts, domain.ts, and of components spanColor.ts,
--            CollapsedStrip.tsx and the escape of renderSpanTooltip.tsx.
-- The Tests modules apply the results to concrete inputs.
--
-- How the parts meet: mergeBindings gives buildAssetTree its maps of bindings; the mini heatmaps and
-- the evaluation views read one result of the API by two functions; discoverTargets gives
-- the toggles of a trend their keys; the wizard starts from an SLO of Entities and sends what its steps
-- hold; an action sends the evaluations of its scope and invalidates keys of QueryKeys; the provider
-- of the time range writes the URL and reads it in the next render.
--
-- Names are those of the code in this language's spelling: `mergeBindings` is `merge_bindings`. A
-- field that may be null or undefined is an Option; an object used as a map, and a Map, is an
-- association list in insertion order. A loop is a recursion on its list, and an
-- array that it fills is the list that it leaves.
--
-- Fuel: `build_group_node` recurses into subgroups that it looks up by name, so that nothing in the
-- code bounds its depth; one unit is spent for each level, and fuel above the rank of a group does
-- where subgroups have smaller ranks; the same holds for `collect_group_asset_names` and
-- `count_leaf_members`. `longest_prefix` halves an interval and needs at most its
-- width; the number of the units of a text is enough.
--
-- Distances in Charts/Labels are counted in fractions of a pixel that make the code's quotients
-- exact; rounding errors of floating point are not modelled there.
--
-- Not modelled: rendering (React, ECharts), fetching (React Query), the browser's measures and
-- styles, the conversion of dates, the clock, JSON and the reading of floating-point numbers (all
-- parameters), a storage that refuses to write or holds an object of another shape than a range,
-- keys of objects that are array indices (which JavaScript moves to the front), and the services in
-- api, adapters and clients.
pub mod Prelude
pub mod Js
pub mod Results
pub mod TimeRange
pub mod Entities
pub mod Forms
pub mod QueryKeys
pub mod Actions
pub mod Registry
pub mod Navigator
pub mod Charts
pub mod Evaluations
pub mod MetaTimeline
