-- ===== src/Plugin/Spec/Examples.antt =====
-- Tests of plugin declarations, and their theorem at a concrete input.
use reglet_hostlib.Base.{◌≡◌, refl, false, some, []}
use reglet_hostlib.Base.Text.{codes}
use reglet_hostlib.Plugin.Spec.{parse_plugin_declaration}

declarations :
    (parse_plugin_declaration (codes "file@1.2.0")
      ≡ some (record {
        name = codes "file";
        source = codes "file";
        version = codes "1.2.0";
        digest = [];
        verify = false;
      }))
    × (parse_plugin_declaration (codes "ghcr.io/org/file:1.2.0")
        ≡ some (record {
          name = codes "file";
          source = codes "ghcr.io/org/file:1.2.0";
          version = codes "1.2.0";
          digest = [];
          verify = false;
        }))
    × (parse_plugin_declaration (codes "ghcr.io/org/file@sha256:ab")
        ≡ some (record {
          name = codes "file";
          source = codes "ghcr.io/org/file@sha256:ab";
          version = [];
          digest = codes "sha256:ab";
          verify = false;
        }))
unfolding parse_plugin_declaration
declarations = (refl, refl, refl)
