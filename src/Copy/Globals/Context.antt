-- ===== src/Copy/Globals/Context.antt =====
-- `copy_executor_globals` of src/ph_copy.c as a whole: a thread that is prepared has the main
-- thread's functions, classes and settings.
use phactor.Base.{◌<◌, ◌≡◌, [], null}
use phactor.Copy.Classes.Ordered.{Listed, addresses, listing, IsPresent, IsOrdered}
use phactor.Copy.Functions.Compiled.{IsLocalNames}
use phactor.Copy.Functions.Tables.{IsCompiledFunction, selected}
use phactor.Copy.Globals.{Globals, MainGlobals}
use phactor.Copy.Tables.{All, IsFresh, IsDistinct}
use phactor.Copy.Zend.{Zend}

-- What a script has loaded, and what PHP's startup gave the thread: no name of the one is in the
-- other.
pub record IsLoaded (zend : Zend) (main : MainGlobals) (listed : Listed) (g : Globals)
    : Type 0 where
  pub functions : All (λ e. IsCompiledFunction zend e.1) main.function_table
  pub function_names : IsDistinct (selected null main.function_table)
  pub new_functions : IsFresh (selected null main.function_table) g.function_table
  pub file_names : IsLocalNames g.classes.op_array_file_names
  pub table : main.class_table ≡ addresses listed
  pub present : IsPresent zend main.class_memory listed
  pub ordered : IsOrdered zend main.class_memory [] listed
  pub class_names : IsDistinct (listing zend listed)
  pub new_classes : IsFresh (listing zend listed) g.classes.class_table
  pub arena : 0 < g.classes.next
