-- ===== src/ScanGrid.antt =====
-- server/swarmdeck_server/mapsvc/scan_grid.py: the occupancy grid of one robot, which its lidar scans
-- fill.
--
-- ScanGrid.Lines is `_bresenham`, the cells that a beam crosses, and ScanGrid.Evidence what a scan
-- makes of them. Where a point stands in the grid (`_to_cell`), the filter of stray returns and the
-- growth of the grid are not modelled: a beam is given by its cells.
pub mod Lines
pub mod Evidence
mod Samples
