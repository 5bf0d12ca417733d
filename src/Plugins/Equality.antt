-- ===== src/Plugins/Equality.antt =====
-- The derived `==` of `Plugin`, as a decision.
use mpl_core.Prelude.{ℕ_discrete, Bool, decide}
use mpl_core.Plugins.Types.{Plugin, PluginType}

pub PluginType-discrete : Discrete PluginType
PluginType-discrete = hlevel

pub Plugin-discrete : Discrete Plugin
Plugin-discrete = hlevel ℕ_discrete

abbrev pub plugin_eq : Plugin → Plugin → Bool
plugin_eq a b = decide (Plugin-discrete a b)
