-- ===== src/Settings.antt =====
-- server/swarmdeck_server/config/settings.py and config/detection.py: the operator's settings.
--
-- Settings.Reading is what Python makes of a value of the request, Settings.Detection the classes and
-- the floors of the detector (detection.py), Settings.Robots the rows of the robots and
-- Settings.Validation `SettingsStore.validate` (settings.py). A settings dictionary is the record
-- `Settings`. The detector's catalog, which may be missing, is a parameter, and so are the characters
-- that Unicode counts as white or as digits. A float counts thousandths; the file of the store is not
-- modelled.
pub mod Reading
pub mod Detection
pub mod Cents
pub mod Captured
pub mod Capturing
pub mod Robots
pub mod Validation
pub mod Names
pub mod Rows
pub mod Numbers
pub mod Floors
pub mod Valid
pub mod Saved
mod Samples
