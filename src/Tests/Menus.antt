-- ===== src/Tests/Menus.antt =====
-- The menu and the forms in the grid, at concrete data.
use torrxfer.Base.{refl, [], ◌∷◌, ◌++◌}
use torrxfer.Client.Display.Layout.{
  GridLibrary, IsDocumented, Items, without, add_folder, Screen, start_ui, select_item, draw, leave,
}
use torrxfer.Client.Display.Layout.Places.{Prompt, started, chosen, left, IsTidy, Prompt-IsTidy}

abbrev library : GridLibrary
library = record {
  Grid = Items;
  new_grid = [];
  add_item = λ s p at. s ++ ((p, at) ∷ []);
  remove_item = λ s p. without p s;
  items = λ s. s;
}

library-IsDocumented : IsDocumented library
library-IsDocumented = record {
  items-new_grid = refl;
  items-add_item = λ s p at. refl;
  items-remove_item = λ s p. refl;
}

abbrev first : Screen library
first = start_ui library

abbrev asks : Screen library
asks = draw library (select_item library first add_folder)

asks-Prompt : Prompt library library-IsDocumented (draw library (leave library asks asks.focus))
unfolding draw select_item
asks-Prompt = left (chosen started refl add_folder refl) tt refl

Prompt-IsTidy_example :
    IsTidy library library-IsDocumented (draw library (leave library asks asks.focus))
Prompt-IsTidy_example = Prompt-IsTidy library library-IsDocumented asks-Prompt
